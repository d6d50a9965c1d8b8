-- ===== src/Rpc/Frames.antt =====
-- What a client reads does not depend on how its input comes in chunks, within the limit of its bytes.
use rolekit.Common.{
  ℕ, true, false, ◌≡◌, refl, sym, ap, ◌∙◌, inl, inr, List, [], ◌∷◌, ◌++◌, append_assoc, append-nil,
  arith, Bool-cases, ◌==◌, ◌+◌, ◌≤◌, leb,
}
use rolekit.Common.Text.{Text}
use rolekit.Rpc.Model.{RpcEnv, Client, State, Event, stdout_data}
use rolekit.Rpc.Requests.{hold, split_lines}
use rolekit.Rpc.Responses.{consume_line, consume_lines, feed}
use rolekit.Rpc.Client.{retain_output, on_stdout, step, run}
use rolekit.Rpc.Bytes.{counted, consume_lines-counted}

-- Lines that come first, and then the split of what is after them.
abbrev before : List Text → List Text × Text → List Text × Text
before ls later = (ls ++ later.0, later.1)

hold-before :
    (c : ℕ) (first : List Text × Text) (ys : Text)
    → (c == 10) ≡ false
    → hold c (before first.0 (split_lines (first.1 ++ ys)))
      ≡ before (hold c first).0 (split_lines ((hold c first).1 ++ ys))
unfolding split_lines
hold-before c ([], r) ys h = rw (split_lines, h) refl
hold-before c (l ∷ ls, r) ys h = refl

pub split_lines-append :
    (xs ys : Text)
    → split_lines (xs ++ ys) ≡ before (split_lines xs).0 (split_lines ((split_lines xs).1 ++ ys))
unfolding split_lines
split_lines-append [] ys = refl
split_lines-append (c ∷ xs) ys = elim (Bool-cases (c == 10)) [
  | inl newline ↦ rw (split_lines, newline) (ap (λ p. ([] ∷ p.0, p.1)) (split_lines-append xs ys))
  | inr other ↦
      rw (split_lines, other)
        (ap (hold c) (split_lines-append xs ys) ∙ hold-before c (split_lines xs) ys other)
]

-- The text that lines and a rest come from.
abbrev unsplit : List Text → Text → Text
unsplit [] rest = rest
unsplit (l ∷ ls) rest = l ++ (10 ∷ unsplit ls rest)

unsplit-hold :
    (c : ℕ) (p : List Text × Text) → unsplit (hold c p).0 (hold c p).1 ≡ c ∷ unsplit p.0 p.1
unsplit-hold c ([], r) = refl
unsplit-hold c (l ∷ ls, r) = refl

is_newline : (c : ℕ) → (c == 10) ≡ true → c ≡ 10
is_newline c h = ground arith

-- The lines of a text, a newline after each, and the rest after them are the text.
pub split_lines-unsplit : (t : Text) → unsplit (split_lines t).0 (split_lines t).1 ≡ t
unfolding split_lines
split_lines-unsplit [] = refl
split_lines-unsplit (c ∷ t) = elim (Bool-cases (c == 10)) [
  | inl newline ↦
      rw (split_lines, newline, is_newline c newline) (ap (λ x. 10 ∷ x) (split_lines-unsplit t))
  | inr other ↦
      rw (split_lines, other)
        (unsplit-hold c (split_lines t) ∙ ap (λ x. c ∷ x) (split_lines-unsplit t))
]

-- Chunks, by their bytes and texts, and what they are in one piece.
abbrev pub arrivals : List (ℕ × Text) → List Event
arrivals [] = []
arrivals ((bytes, text) ∷ cs) = stdout_data bytes text ∷ arrivals cs

abbrev pub bytes_of : List (ℕ × Text) → ℕ
bytes_of [] = 0
bytes_of ((bytes, text) ∷ cs) = bytes + bytes_of cs

abbrev pub text_of : List (ℕ × Text) → Text
text_of [] = []
text_of ((bytes, text) ∷ cs) = text ++ text_of cs

module _ (env : RpcEnv) where
  consume_lines-append :
      (xs ys : List Text) (s : Client)
      → consume_lines env (xs ++ ys) s ≡ consume_lines env ys (consume_lines env xs s)
  unfolding consume_lines
  consume_lines-append [] ys s = refl
  consume_lines-append (x ∷ xs) ys s = consume_lines-append xs ys (consume_line env x s)

  feed-feed : (t u : Text) (s : State) → feed env u (feed env t s) ≡ feed env (t ++ u) s
  unfolding feed
  feed-feed t u s =
      let first = split_lines (s.buffer ++ t) in
      let whole = split_lines-append (s.buffer ++ t) u in
      let together : split_lines (s.buffer ++ (t ++ u))
          ≡ before first.0 (split_lines (first.1 ++ u)) =
        ap split_lines (sym (append_assoc s.buffer t u)) ∙ whole in
      rw (together, consume_lines-append first.0 (split_lines (first.1 ++ u)).0 s.client) refl

  -- The listener on data with a chunk that is within the limit, which counts its bytes first.
  on_stdout_within :
      (bytes : ℕ) (text : Text) (s : State)
      → s.client.output_bytes + bytes ≤ env.max_output_bytes
      → on_stdout env bytes text s
        ≡ feed env text (record s { client = counted (s.client.output_bytes + bytes) s.client })
  unfolding on_stdout retain_output
  on_stdout_within bytes text s h =
      let fits : leb (s.client.output_bytes + bytes) env.max_output_bytes ≡ true = ground arith in
      rw (on_stdout, retain_output, fits) refl

  feed-counted :
      (text : Text) (n : ℕ) (s : State)
      → feed env text (record s { client = counted n s.client })
        ≡ (let fed = feed env text s in record fed { client = counted n fed.client })
  unfolding feed
  feed-counted text n s =
      ap (λ c. record { client = c; buffer = (split_lines (s.buffer ++ text)).1 })
        (consume_lines-counted env n (split_lines (s.buffer ++ text)).0 s.client)

  -- Two chunks within the limit, or one.
  on_stdout-on_stdout :
      (a b : ℕ) (t u : Text) (s : State)
      → s.client.output_bytes + (a + b) ≤ env.max_output_bytes
      → on_stdout env b u (on_stdout env a t s) ≡ on_stdout env (a + b) (t ++ u) s
  on_stdout-on_stdout a b t u s h =
      let n = s.client.output_bytes + a in
      let first = on_stdout_within a t s (omega arith) ∙ feed-counted t n s in
      let fed = feed env t s in
      let second =
        on_stdout_within b u (record fed { client = counted n fed.client }) (omega arith) in
      let both = on_stdout_within (a + b) (t ++ u) s h in
      let sum : s.client.output_bytes + (a + b) ≡ n + b = omega arith in
      ap (on_stdout env b u) first
      ∙ (second
          ∙ (ap (feed env u) (sym (feed-counted t (n + b) s))
              ∙ (feed-feed t u (record s { client = counted (n + b) s.client })
                  ∙ (ap (λ k. feed env (t ++ u) (record s { client = counted k s.client }))
                        (sym sum)
                      ∙ sym both))))

  -- Whatever its state, a client that is sent chunks on its standard output, at least one and each with the
  -- text that the decoder makes of it, whose bytes stay within the limit together with those that it has
  -- retained, comes to the state of the client that is sent all of the text in one chunk: the lines that it
  -- handles, the responses, events and errors among them, and what it keeps for the next chunk do not
  -- depend on how its input is cut. Nothing is said of chunks beyond the limit, where the one that
  -- exceeds it is dropped whole.
  pub run_joined :
      (c : ℕ × Text) (cs : List (ℕ × Text)) (s : State)
      → s.client.output_bytes + bytes_of (c ∷ cs) ≤ env.max_output_bytes
      → run env s (arrivals (c ∷ cs))
        ≡ step env s (stdout_data (bytes_of (c ∷ cs)) (text_of (c ∷ cs)))
  unfolding run step
  run_joined (a, t) [] s h =
      let same : a ≡ a + 0 = omega arith in
      ap (λ n. on_stdout env n t s) same ∙ ap (λ x. on_stdout env (a + 0) x s) (sym (append-nil t))
  run_joined (a, t) ((b, u) ∷ cs) s h =
      let two = on_stdout-on_stdout a b t u s (omega arith) in
      let sum : (a + b) + bytes_of cs ≡ a + (b + bytes_of cs) = omega arith in
      ap (λ x. run env x (arrivals cs)) two
      ∙ (run_joined (a + b, t ++ u) cs s (omega arith)
          ∙ (ap (λ n. on_stdout env n ((t ++ u) ++ text_of cs) s) sum
              ∙ ap (λ x. on_stdout env (a + (b + bytes_of cs)) x s)
                  (append_assoc t u (text_of cs))))
