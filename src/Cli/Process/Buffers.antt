-- ===== src/Cli/Process/Buffers.antt =====
-- The two output buffers of a run, and the prefix of a chunk that is stored.
use rolekit.Common.{
  ℕ, ◌≤◌, min, ◌≡◌, ◌++◌, List, [], ◌∷◌, arith, length, concat, concat-push, length-take,
  take-length_le, append-nil, sym,
}
use rolekit.Cli.Process.Model.{copy_retained_output_prefix, push}

pub concat_of_push :
    (target : List (List ℕ)) (chunk : List ℕ) → concat (push target chunk) ≡ concat target ++ chunk
unfolding push
concat_of_push target [] = sym (append-nil _)
concat_of_push target (b ∷ bs) = concat-push target (b ∷ bs)

pub length-copy :
    (chunk : List ℕ) (n : ℕ) → length (copy_retained_output_prefix chunk n) ≡ min n (length chunk)
unfolding copy_retained_output_prefix
length-copy chunk n = omega (arith, length-take (min (length chunk) n) chunk)

-- The prefix is the whole chunk where there is room for it.
pub copy_whole :
    (chunk : List ℕ) (n : ℕ) → length chunk ≤ n → copy_retained_output_prefix chunk n ≡ chunk
unfolding copy_retained_output_prefix
copy_whole chunk n h = take-length_le (min (length chunk) n) chunk (omega arith)
