-- ===== src/Rpc/Count.antt =====
-- How often an id stands in the map of pending requests, among the settled ones, and among those given out.
use rolekit.Common.{
  ℕ, zero, suc, ◌+◌, ◌≤◌, ◌<◌, Bool, true, false, ◌≡◌, refl, ap, ◌∙◌, inl, inr, some, List, [], ◌∷◌,
  ◌++◌, sym, arith, Bool-cases, ltb, if◌then◌else◌, ◌&&◌, ◌==◌,
}
use rolekit.Common.Text.{Text, codes, text_eq, text_eq_sound, text_eq_refl, decimal}
use rolekit.Common.Digits.{decimal-injective}
use rolekit.Rpc.Model.{Failure, RequestEnd, refused, request_id, lookup, put, delete}
use rolekit.Rpc.Requests.{is_settled, add_end, reject_all}

abbrev pub one_if : Bool → ℕ
one_if true = 1
one_if false = 0

abbrev pub count {ℓ} : {A : Type ℓ} → Text → List (Text × A) → ℕ
count id [] = 0
count id ((k, v) ∷ rest) = one_if (text_eq k id) + count id rest

pub count-append {ℓ} :
    {A : Type ℓ} (id : Text) (xs ys : List (Text × A))
    → count id (xs ++ ys) ≡ count id xs + count id ys
count-append id [] ys = omega arith
count-append id ((k, v) ∷ xs) ys = omega (arith, count-append id xs ys)

-- How often a promise has settled, which was rejected or resolved as often as the first number says, and
-- had settled as often as the second one says.
abbrev pub settled_after : ℕ → ℕ → ℕ
settled_after p s = if ltb 0 p && s == 0 then 1 else s

settled_after_add : (p q s : ℕ) → settled_after p (settled_after q s) ≡ settled_after (q + p) s
settled_after_add p q s = ground arith

count-is_settled :
    (id : Text) (ends : List (Text × RequestEnd)) → is_settled id ends ≡ ltb 0 (count id ends)
unfolding is_settled
count-is_settled id [] = refl
count-is_settled id ((k, how) ∷ ends) = ground (arith, count-is_settled id ends)

pub count-add_end :
    (id key : Text) (how : RequestEnd) (ends : List (Text × RequestEnd))
    → count id (add_end key how ends) ≡ settled_after (one_if (text_eq key id)) (count id ends)
unfolding add_end
count-add_end id key how ends = elim (Bool-cases (text_eq key id)) [
  | inl same ↦
      let e = text_eq_sound key id same in
      elim (Bool-cases (is_settled key ends)) [
        | inl old ↦
            let there = count-is_settled id ends in
            let settled : is_settled id ends ≡ true = rw (sym e) old in
            rw (add_end, old) (ground arith)
        | inr new ↦
            let there = count-is_settled id ends in
            let open_yet : is_settled id ends ≡ false = rw (sym e) new in
            let more = count-append id ends ((key, how) ∷ []) in rw (add_end, new) (ground arith)
      ]
  | inr other ↦ elim (Bool-cases (is_settled key ends)) [
    | inl old ↦ rw (add_end, old) (ground arith)
    | inr new ↦
        let more = count-append id ends ((key, how) ∷ []) in rw (add_end, new) (ground arith)
  ]
]

pub count-reject_all :
    (id : Text) (f : Failure) (pending : List (Text × Text)) (ends : List (Text × RequestEnd))
    → count id (reject_all f pending ends) ≡ settled_after (count id pending) (count id ends)
unfolding reject_all
count-reject_all id f [] ends = refl
count-reject_all id f ((k, v) ∷ pending) ends =
    count-reject_all id f pending (add_end k (refused f) ends)
    ∙ (ap (settled_after (count id pending)) (count-add_end id k (refused f) ends)
        ∙ settled_after_add (count id pending) (one_if (text_eq k id)) (count id ends))

-- One more id, where it was not there.
pub count-put :
    (id key command : Text) (xs : List (Text × Text))
    → count key xs ≡ 0
    → count id (put key command xs) ≡ count id xs + one_if (text_eq key id)
unfolding put
count-put id key command [] h = omega arith
count-put id key command ((k, v) ∷ xs) h = elim (Bool-cases (text_eq k key)) [
  | inl same ↦ absurd (let no : one_if (text_eq k key) + count key xs ≡ 0 = h in ground arith)
  | inr other ↦
      let rest : count key xs ≡ 0 = ground arith in
      let more = count-put id key command xs rest in rw (put, other) (omega arith)
]

-- One less id, where it was there.
pub count-delete :
    (id key command : Text) (xs : List (Text × Text))
    → lookup key xs ≡ some command
    → count id (delete key xs) + one_if (text_eq key id) ≡ count id xs
unfolding lookup delete
count-delete id key command [] h = absurd (ground arith)
count-delete id key command ((k, v) ∷ xs) h = elim (Bool-cases (text_eq k key)) [
  | inl same ↦ let e = text_eq_sound k key same in rw (delete, same, e) (omega arith)
  | inr other ↦
      let more = count-delete id key command xs (ground arith) in rw (delete, other) (omega arith)
]

-- How many of the numbers from 1 below a number give an id.
unfoldable pub issued : Text → ℕ → ℕ
issued id zero = 0
issued id (suc zero) = 0
issued id (suc (suc n)) = one_if (text_eq (request_id (suc n)) id) + issued id (suc n)

request_id-injective : (m n : ℕ) → text_eq (request_id m) (request_id n) ≡ true → m ≡ n
unfolding request_id
request_id-injective m n h =
    let e = text_eq_sound (codes "rolekit-" ++ decimal m) (codes "rolekit-" ++ decimal n) h in
    decimal-injective m n (ground arith)

-- An id is new until its number is reached.
pub issued_fresh : (n m : ℕ) → m ≤ n → issued (request_id n) m ≡ 0
unfolding issued
issued_fresh n zero h = refl
issued_fresh n (suc zero) h = refl
issued_fresh n (suc (suc m)) h =
    let before = issued_fresh n (suc m) (omega arith) in
    elim (Bool-cases (text_eq (request_id (suc m)) (request_id n))) [
      | inl same ↦ absurd (let e = request_id-injective (suc m) n same in omega arith)
      | inr other ↦ rw (issued, other) (omega arith)
    ]

-- No two numbers give the same id.
pub issued_bound : (id : Text) (m : ℕ) → issued id m ≤ 1
unfolding issued
issued_bound id zero = omega arith
issued_bound id (suc zero) = omega arith
issued_bound id (suc (suc m)) = elim (Bool-cases (text_eq (request_id (suc m)) id)) [
  | inl same ↦
      let e = text_eq_sound (request_id (suc m)) id same in
      let before : issued id (suc m) ≡ 0 =
        ap (λ k. issued k (suc m)) (sym e) ∙ issued_fresh (suc m) (suc m) (omega arith) in
      rw (issued, same) (omega arith)
  | inr other ↦ let before = issued_bound id (suc m) in rw (issued, other) (omega arith)
]

-- Every number gives an id of its own.
pub issued_once : (n m : ℕ) → 1 ≤ n → n < m → issued (request_id n) m ≡ 1
unfolding issued
issued_once n zero p h = absurd (omega arith)
issued_once n (suc zero) p h = absurd (omega arith)
issued_once n (suc (suc m)) p h = elim (Bool-cases (text_eq (request_id (suc m)) (request_id n))) [
  | inl same ↦
      let e = request_id-injective (suc m) n same in
      let before = issued_fresh n (suc m) (omega arith) in rw (issued, same) (omega arith)
  | inr other ↦
      let apart : ((suc m) ≡ n) → ⊥ = λ e.
        (let q = ap (λ k. text_eq (request_id (suc m)) (request_id k)) e in
          let r = text_eq_refl (request_id (suc m)) in ground arith) in
      let before = issued_once n (suc m) p (omega arith) in rw (issued, other) (omega arith)
]

pub issued_next :
    (id : Text) (n : ℕ)
    → 1 ≤ n
    → issued id (n + 1) ≡ one_if (text_eq (request_id n) id) + issued id n
unfolding issued
issued_next id zero p = absurd (omega arith)
issued_next id (suc n) p = let e : suc n + 1 ≡ suc (suc n) = omega arith in ap (issued id) e ∙ refl
