-- ===== src/Rpc/Valid.antt =====
-- The account that a client keeps of its requests, and the operations on requests that keep it.
use rolekit.Common.{
  ℕ, ◌+◌, Bool, true, false, ◌||◌, ◌≡◌, refl, ap, ◌∙◌, inl, inr, Option, none, some, [], ◌∷◌, sym,
  ◌≤◌, arith, if◌then◌else◌, Bool-cases, Option-cases, is_some,
}
use rolekit.Common.Text.{Text}
use rolekit.Common.Thrown.{Thrown}
use rolekit.Rpc.Model.{Failure, RequestEnd, threw, Client, request_id, lookup, delete}
use rolekit.Rpc.Requests.{
  filled_type, fresh, settle, begin_request, serialize, reject_pending, fail, send_request,
  on_request_timeout,
}
use rolekit.Rpc.Count.{
  count, count-append, count-put, count-delete, count-add_end, count-reject_all, issued,
  issued_bound, issued_fresh, issued_next,
}

-- Every id that was given out is pending or settled, pending at most once and settled at most once, and both
-- only where its request could not be serialized.
pub record IsAccounted (s : Client) (id : Text) : Type 0 where
  pub pending_once : count id s.pending ≤ issued id s.next_request_id
  pub settled_once : count id s.settled ≤ issued id s.next_request_id
  pub traced : issued id s.next_request_id ≤ count id s.pending + count id s.settled
  pub in_one :
      count id s.pending + count id s.settled ≤ issued id s.next_request_id + count id s.unwritten

pub record IsValid (s : Client) : Type 0 where
  pub positive : 1 ≤ s.next_request_id
  pub accounted : (id : Text) → IsAccounted s id
  pub none_left : (is_some s.failure || s.closed) ≡ true → s.pending ≡ []

pub fresh-IsValid : IsValid fresh.client
unfolding fresh issued
fresh-IsValid = record {
  positive = omega arith;
  accounted = λ id. record {
    pending_once = omega arith;
    settled_once = omega arith;
    traced = omega arith;
    in_one = omega arith;
  };
  none_left = λ h. refl;
}

reject_pending-IsAccounted :
    (f : Failure) (s : Client) (id : Text) → IsAccounted s id → IsAccounted (reject_pending f s) id
unfolding reject_pending
reject_pending-IsAccounted f s id a =
    let b = count-reject_all id f s.pending s.settled in
    let c = a.pending_once in
    let d = a.settled_once in
    let e = a.traced in
    let g = issued_bound id s.next_request_id in
    record {
      pending_once = omega arith;
      settled_once = ground arith;
      traced = ground arith;
      in_one = ground arith;
    }

pub reject_pending-IsValid :
    (f : Failure) (s : Client)
    → 1 ≤ s.next_request_id
    → ((id : Text) → IsAccounted s id)
    → IsValid (reject_pending f s)
unfolding reject_pending
reject_pending-IsValid f s p a = record {
  positive = p;
  accounted = λ id. reject_pending-IsAccounted f s id (a id);
  none_left = λ h. refl;
}

-- What an operation that touches neither the requests nor the failure keeps.
pub kept-IsValid :
    (s t : Client)
    → t.next_request_id ≡ s.next_request_id
    → t.pending ≡ s.pending
    → t.settled ≡ s.settled
    → t.unwritten ≡ s.unwritten
    → (is_some t.failure || t.closed) ≡ (is_some s.failure || s.closed)
    → IsValid s
    → IsValid t
kept-IsValid s t a b c d e v = record {
  positive = rw a v.positive;
  accounted = λ id.
      (let w = v.accounted id in
        record {
          pending_once = rw (a, b) w.pending_once;
          settled_once = rw (a, c) w.settled_once;
          traced = rw (a, b, c) w.traced;
          in_one = rw (a, b, c, d) w.in_one;
        });
  none_left = λ h. b ∙ v.none_left (sym e ∙ h);
}

pub fail-IsValid : (f : Failure) (s : Client) → IsValid s → IsValid (fail f s)
unfolding fail
fail-IsValid f s v = elim (Bool-cases (is_some s.failure || s.closed)) [
  | inl over ↦ rw (fail, over) v
  | inr still ↦
      rw (fail, still)
        (reject_pending-IsValid f (record s { failure = some f; terminations = s.terminations + 1 })
          v.positive
          (λ id.
            (let w = v.accounted id in
              record {
                pending_once = w.pending_once;
                settled_once = w.settled_once;
                traced = w.traced;
                in_one = w.in_one;
              })))
]

settle-IsAccounted :
    (id command : Text) (how : RequestEnd) (s : Client) (other : Text)
    → lookup id s.pending ≡ some command
    → IsAccounted s other
    → IsAccounted (settle id how s) other
settle-IsAccounted id command how s other there a =
    let b = count-delete other id command s.pending there in
    let c = count-add_end other id how s.settled in
    let d = a.pending_once in
    let e = a.settled_once in
    let f = a.traced in
    let g = a.in_one in
    let h = issued_bound other s.next_request_id in
    record {
      pending_once = omega arith;
      settled_once = ground arith;
      traced = ground arith;
      in_one = ground arith;
    }

pub settle-IsValid :
    (id command : Text) (how : RequestEnd) (s : Client)
    → lookup id s.pending ≡ some command
    → IsValid s
    → IsValid (settle id how s)
unfolding delete lookup
settle-IsValid id command how s there v = record {
  positive = v.positive;
  accounted = λ other. settle-IsAccounted id command how s other there (v.accounted other);
  none_left = λ h. ap (delete id) (v.none_left h);
}

-- A request that has taken its id, serialized or not.
begun-IsAccounted :
    (command : Text) (thrown : Option Thrown) (s : Client) (id : Text)
    → IsValid s
    → IsAccounted (serialize (request_id s.next_request_id) thrown (begin_request command s)) id
begun-IsAccounted command thrown s id v =
    let key = request_id s.next_request_id in
    let new = issued_fresh s.next_request_id s.next_request_id (omega arith) in
    let no_pending = (v.accounted key).pending_once in
    let no_settled = (v.accounted key).settled_once in
    let w = v.accounted id in
    let a = w.pending_once in
    let b = w.settled_once in
    let c = w.traced in
    let d = w.in_one in
    let e = count-put id key command s.pending (omega arith) in
    let f = issued_next id s.next_request_id v.positive in
    let bound = issued_bound id (s.next_request_id + 1) in
    elim thrown as (λ o. IsAccounted (serialize key o (begin_request command s)) id) [
      | none ↦ record {
        pending_once = omega arith;
        settled_once = omega arith;
        traced = omega arith;
        in_one = omega arith;
      }
      | some t ↦
          let g = count-add_end id key (threw t) s.settled in
          let h = count-append id s.unwritten ((key, t) ∷ []) in
          record {
            pending_once = omega arith;
            settled_once = ground arith;
            traced = ground arith;
            in_one = ground arith;
          }
    ]

serialize_failed :
    (id : Text) (thrown : Option Thrown) (s : Client)
    → (is_some (serialize id thrown s).failure || (serialize id thrown s).closed)
      ≡ (is_some s.failure || s.closed)
serialize_failed id none s = refl
serialize_failed id (some t) s = refl

serialize-next :
    (id : Text) (thrown : Option Thrown) (s : Client)
    → (serialize id thrown s).next_request_id ≡ s.next_request_id
serialize-next id none s = refl
serialize-next id (some t) s = refl

begun-IsValid :
    (command : Text) (thrown : Option Thrown) (s : Client)
    → (is_some s.failure || s.closed) ≡ false
    → IsValid s
    → IsValid (serialize (request_id s.next_request_id) thrown (begin_request command s))
begun-IsValid command thrown s still v =
    let key = request_id s.next_request_id in
    let same = serialize_failed key thrown (begin_request command s) in
    let next = serialize-next key thrown (begin_request command s) in
    record {
      positive = rw next (omega (arith, v.positive));
      accounted = λ id. begun-IsAccounted command thrown s id v;
      none_left = λ h. absurd (ground (arith, same, h, still));
    }

pub send_request-IsValid :
    (type : Option Text) (thrown : Option Thrown) (s : Client)
    → IsValid s
    → IsValid (send_request type thrown s).0
unfolding send_request
send_request-IsValid type thrown s v = elim (Option-cases s.failure) [
  | inr (f, failed) ↦ rw (send_request, failed) v
  | inl fine ↦ elim (Bool-cases (s.closing || s.closed)) [
    | inl over ↦ rw (send_request, fine, over) v
    | inr still ↦ elim (Option-cases (filled_type type)) [
      | inl bad ↦ rw (send_request, fine, still, bad) v
      | inr (command, good) ↦
          rw (send_request, fine, still, good) (begun-IsValid command thrown s (ground arith) v)
    ]
  ]
]

pub on_request_timeout-IsValid :
    (id : Text) (milliseconds : ℕ) (s : Client)
    → IsValid s
    → IsValid (on_request_timeout id milliseconds s)
unfolding on_request_timeout
on_request_timeout-IsValid id milliseconds s v = elim (Option-cases (lookup id s.pending)) [
  | inl cleared ↦ rw (on_request_timeout, cleared) v
  | inr (command, there) ↦
      rw (on_request_timeout, there) (fail-IsValid _ _ (settle-IsValid id command _ s there v))
]

pub if-IsValid : (b : Bool) (s t : Client) → IsValid s → IsValid t → IsValid (if b then s else t)
if-IsValid true s t p q = p
if-IsValid false s t p q = q
