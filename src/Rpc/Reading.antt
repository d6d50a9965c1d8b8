-- ===== src/Rpc/Reading.antt =====
-- What a client reads, and the errors of its writes, keep the account of its requests.
use rolekit.Common.{
  Bool, not, ◌≡◌, refl, ◌⊎◌, inl, inr, some, List, [], ◌∷◌, ◌++◌, ◌==◌, length, Bool-cases,
  Option-cases,
}
use rolekit.Common.Text.{Text, codes, text_eq}
use rolekit.Common.Thrown.{Thrown}
use rolekit.Core.Json.Data.{Json, null, bool, num, str, arr, obj, Fields, member}
use rolekit.Rpc.Model.{RpcEnv, Client, lookup}
use rolekit.Rpc.Requests.{as_string, as_boolean, without_return}
use rolekit.Rpc.Responses.{
  on_write_error, take_response, find_response, handle_response, deliver, consume_value,
  consume_line, consume_lines,
}
use rolekit.Rpc.Valid.{IsValid, fail-IsValid, settle-IsValid, kept-IsValid}

module _ (env : RpcEnv) where
  pub on_write_error-IsValid :
      (id : Text) (t : Thrown) (s : Client) → IsValid s → IsValid (on_write_error env id t s)
  unfolding on_write_error
  on_write_error-IsValid id t s v = elim (Option-cases (lookup id s.pending)) [
    | inl gone ↦ rw (on_write_error, gone) v
    | inr (command, there) ↦ rw (on_write_error, there) (settle-IsValid id command _ s there v)
  ]

  take_response-IsValid :
      (id command : Text) (success : Bool) (given : Text) (fs : Fields) (s : Client)
      → lookup id s.pending ≡ some command
      → IsValid s
      → IsValid (take_response env id command success given fs s)
  unfolding take_response
  take_response-IsValid id command success given fs s there v =
      elim (Bool-cases (not (text_eq given command))) [
        | inl other ↦
            rw (take_response, other) (fail-IsValid _ _ (settle-IsValid id command _ s there v))
        | inr same ↦ elim (Bool-cases success) [
          | inl good ↦ rw (take_response, same, good) (settle-IsValid id command _ s there v)
          | inr bad ↦ rw (take_response, same, bad) (settle-IsValid id command _ s there v)
        ]
      ]

  find_response-IsValid :
      (id given : Text) (success : Bool) (fs : Fields) (s : Client)
      → IsValid s
      → IsValid (find_response env id given success fs s)
  unfolding find_response
  find_response-IsValid id given success fs s v = elim (Option-cases (lookup id s.pending)) [
    | inl unknown ↦ rw (find_response, unknown) (fail-IsValid _ s v)
    | inr (command, there) ↦
        rw (find_response, there) (take_response-IsValid id command success given fs s there v)
  ]

  handle_response-IsValid :
      (fs : Fields) (s : Client) → IsValid s → IsValid (handle_response env fs s)
  unfolding handle_response
  handle_response-IsValid fs s v = elim (Option-cases (as_string (member (codes "id") fs))) [
    | inl bad ↦ rw (handle_response, bad) (fail-IsValid _ s v)
    | inr (id, a) ↦ elim (Option-cases (as_string (member (codes "command") fs))) [
      | inl bad ↦ rw (handle_response, a, bad) (fail-IsValid _ s v)
      | inr (given, b) ↦ elim (Option-cases (as_boolean (member (codes "success") fs))) [
        | inl bad ↦ rw (handle_response, a, b, bad) (fail-IsValid _ s v)
        | inr (success, c) ↦
            rw (handle_response, a, b, c) (find_response-IsValid id given success fs s v)
      ]
    ]
  ]

  deliver-IsValid : (fs : Fields) (s : Client) → IsValid s → IsValid (deliver env fs s)
  unfolding deliver
  deliver-IsValid fs s v =
      let handed : IsValid (record s { received = s.received ++ (fs ∷ []) }) =
        kept-IsValid s _ refl refl refl refl refl v in
      elim (Option-cases (env.on_event fs)) [
        | inl quiet ↦ rw (deliver, quiet) handed
        | inr (t, thrown) ↦ rw (deliver, thrown) (fail-IsValid _ _ handed)
      ]

  typed-IsValid :
      (fs : Fields) (s : Client) → IsValid s → IsValid (consume_value env (inr (obj fs)) s)
  unfolding consume_value
  typed-IsValid fs s v = elim (Option-cases (as_string (member (codes "type") fs))) [
    | inl bad ↦ rw (consume_value, bad) (fail-IsValid _ s v)
    | inr (type, a) ↦ elim (Bool-cases (text_eq type (codes "response"))) [
      | inl answer ↦ rw (consume_value, a, answer) (handle_response-IsValid fs s v)
      | inr event ↦ rw (consume_value, a, event) (deliver-IsValid fs s v)
    ]
  ]

  consume_value-IsValid :
      (value : Thrown ⊎ Json) (s : Client) → IsValid s → IsValid (consume_value env value s)
  unfolding consume_value
  consume_value-IsValid (inl t) s v = fail-IsValid _ s v
  consume_value-IsValid (inr (obj fs)) s v = typed-IsValid fs s v
  consume_value-IsValid (inr null) s v = fail-IsValid _ s v
  consume_value-IsValid (inr (bool b)) s v = fail-IsValid _ s v
  consume_value-IsValid (inr (num t)) s v = fail-IsValid _ s v
  consume_value-IsValid (inr (str t)) s v = fail-IsValid _ s v
  consume_value-IsValid (inr (arr xs)) s v = fail-IsValid _ s v

  pub consume_line-IsValid :
      (raw : Text) (s : Client) → IsValid s → IsValid (consume_line env raw s)
  unfolding consume_line
  consume_line-IsValid raw s v = elim (Bool-cases (length (without_return raw) == 0)) [
    | inl blank ↦ rw (consume_line, blank) (fail-IsValid _ s v)
    | inr filled ↦
        rw (consume_line, filled) (consume_value-IsValid (env.parse (without_return raw)) s v)
  ]

  pub consume_lines-IsValid :
      (lines : List Text) (s : Client) → IsValid s → IsValid (consume_lines env lines s)
  unfolding consume_lines
  consume_lines-IsValid [] s v = v
  consume_lines-IsValid (l ∷ ls) s v =
      consume_lines-IsValid ls (consume_line env l s) (consume_line-IsValid l s v)
