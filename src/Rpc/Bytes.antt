-- ===== src/Rpc/Bytes.antt =====
-- What the client reads does not depend on the number of bytes that it has retained, nor change it.
use rolekit.Common.{
  ℕ, Bool, not, ◌++◌, ◌||◌, ◌≡◌, refl, ap, ◌∙◌, ◌⊎◌, inl, inr, List, [], ◌∷◌, ◌==◌, length,
  Bool-cases, Option-cases, is_some,
}
use rolekit.Common.Text.{Text, codes, text_eq}
use rolekit.Common.Thrown.{Thrown}
use rolekit.Core.Json.Data.{Json, null, bool, num, str, arr, obj, Fields, member}
use rolekit.Rpc.Model.{RpcEnv, Failure, Client, lookup}
use rolekit.Rpc.Requests.{as_string, as_boolean, without_return, reject_pending, fail, settle}
use rolekit.Rpc.Responses.{
  callback_failure, take_response, find_response, handle_response, deliver, consume_value,
  consume_line, consume_lines,
}

-- The client with a number of bytes.
abbrev pub counted : ℕ → Client → Client
counted n s = record s { output_bytes = n }

fail-counted : (f : Failure) (n : ℕ) (s : Client) → fail f (counted n s) ≡ counted n (fail f s)
unfolding fail reject_pending
fail-counted f n s = elim (Bool-cases (is_some s.failure || s.closed)) [
  | inl over ↦ rw (fail, over) refl
  | inr still ↦ rw (fail, still) refl
]

module _ (env : RpcEnv) (n : ℕ) where
  take_response-counted :
      (id command : Text) (success : Bool) (given : Text) (fs : Fields) (s : Client)
      → take_response env id command success given fs (counted n s)
        ≡ counted n (take_response env id command success given fs s)
  unfolding take_response
  take_response-counted id command success given fs s =
      elim (Bool-cases (not (text_eq given command))) [
        | inl other ↦ rw (take_response, other) (fail-counted _ n (settle id _ s))
        | inr same ↦ elim (Bool-cases success) [
          | inl good ↦ rw (take_response, same, good) refl
          | inr bad ↦ rw (take_response, same, bad) refl
        ]
      ]

  find_response-counted :
      (id given : Text) (success : Bool) (fs : Fields) (s : Client)
      → find_response env id given success fs (counted n s)
        ≡ counted n (find_response env id given success fs s)
  unfolding find_response
  find_response-counted id given success fs s = elim (Option-cases (lookup id s.pending)) [
    | inl unknown ↦ rw (find_response, unknown) (fail-counted _ n s)
    | inr (command, there) ↦
        rw (find_response, there) (take_response-counted id command success given fs s)
  ]

  handle_response-counted :
      (fs : Fields) (s : Client)
      → handle_response env fs (counted n s) ≡ counted n (handle_response env fs s)
  unfolding handle_response
  handle_response-counted fs s = elim (Option-cases (as_string (member (codes "id") fs))) [
    | inl bad ↦ rw (handle_response, bad) (fail-counted _ n s)
    | inr (id, a) ↦ elim (Option-cases (as_string (member (codes "command") fs))) [
      | inl bad ↦ rw (handle_response, a, bad) (fail-counted _ n s)
      | inr (given, b) ↦ elim (Option-cases (as_boolean (member (codes "success") fs))) [
        | inl bad ↦ rw (handle_response, a, b, bad) (fail-counted _ n s)
        | inr (success, c) ↦
            rw (handle_response, a, b, c) (find_response-counted id given success fs s)
      ]
    ]
  ]

  deliver-counted :
      (fs : Fields) (s : Client) → deliver env fs (counted n s) ≡ counted n (deliver env fs s)
  unfolding deliver
  deliver-counted fs s = elim (Option-cases (env.on_event fs)) [
    | inl quiet ↦ rw (deliver, quiet) refl
    | inr (t, thrown) ↦
        rw (deliver, thrown)
          (fail-counted (callback_failure env t) n
            (record s { received = s.received ++ (fs ∷ []) }))
  ]

  typed-counted :
      (fs : Fields) (s : Client)
      → consume_value env (inr (obj fs)) (counted n s)
        ≡ counted n (consume_value env (inr (obj fs)) s)
  unfolding consume_value
  typed-counted fs s = elim (Option-cases (as_string (member (codes "type") fs))) [
    | inl bad ↦ rw (consume_value, bad) (fail-counted _ n s)
    | inr (type, a) ↦ elim (Bool-cases (text_eq type (codes "response"))) [
      | inl answer ↦ rw (consume_value, a, answer) (handle_response-counted fs s)
      | inr event ↦ rw (consume_value, a, event) (deliver-counted fs s)
    ]
  ]

  consume_value-counted :
      (value : Thrown ⊎ Json) (s : Client)
      → consume_value env value (counted n s) ≡ counted n (consume_value env value s)
  unfolding consume_value
  consume_value-counted (inl t) s = fail-counted _ n s
  consume_value-counted (inr (obj fs)) s = typed-counted fs s
  consume_value-counted (inr null) s = fail-counted _ n s
  consume_value-counted (inr (bool b)) s = fail-counted _ n s
  consume_value-counted (inr (num t)) s = fail-counted _ n s
  consume_value-counted (inr (str t)) s = fail-counted _ n s
  consume_value-counted (inr (arr xs)) s = fail-counted _ n s

  consume_line-counted :
      (raw : Text) (s : Client)
      → consume_line env raw (counted n s) ≡ counted n (consume_line env raw s)
  unfolding consume_line
  consume_line-counted raw s = elim (Bool-cases (length (without_return raw) == 0)) [
    | inl blank ↦ rw (consume_line, blank) (fail-counted _ n s)
    | inr filled ↦
        rw (consume_line, filled) (consume_value-counted (env.parse (without_return raw)) s)
  ]

  pub consume_lines-counted :
      (lines : List Text) (s : Client)
      → consume_lines env lines (counted n s) ≡ counted n (consume_lines env lines s)
  unfolding consume_lines
  consume_lines-counted [] s = refl
  consume_lines-counted (l ∷ ls) s =
      ap (consume_lines env ls) (consume_line-counted l s)
      ∙ consume_lines-counted ls (consume_line env l s)
