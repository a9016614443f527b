-- ===== src/Proxy/Commit.antt =====
-- internal/proxy/ttft.go: a successful stream is held back until its first token. A stream is the list
-- of what its reads return, bytes with a status; a read that has failed or ended stays so.
pub mod Inspect
pub mod Replay
use openllms.Prelude.{
  ℕ, zero, suc, ◌*◌, ◌^◌, List, [], ◌∷◌, ◌++◌, Option, none, some, Bool, true, false, ◌||◌, ◌&&◌,
  not, if◌then◌else◌, ltb, length, Text, lit, contains, is_empty,
}

pub data ReadStatus : Type 0 where
  more : ReadStatus
  eof : ReadStatus
  failed : Text → ReadStatus

abbrev pub Stream : Type 0
Stream = List (Text × ReadStatus)

-- `inspectTTFT`'s verdict: a token, an error frame, or neither yet.
pub data Verdict : Type 0 where
  committed : Verdict
  error_frame : Verdict
  pending : Verdict

-- `awaitCommit`: a stream to forward, or a reason to try the next seat.
pub data Commit : Type 0 where
  forward : Stream → Commit
  retry : Text → Commit

abbrev pub max_ttft_buf : ℕ
max_ttft_buf = 2 ^ 20

abbrev pub unexpected_eof : Text
unexpected_eof = lit "unexpected EOF"

-- What is left to read after a read with this status.
abbrev pub left_over : ReadStatus → Stream → Stream
left_over more rest = rest
left_over st rest = ([], st) ∷ []

-- `replayCloser`: the held prefix, then the rest.
abbrev pub replay : Text → Stream → Stream
replay prefix rest = (prefix, more) ∷ rest

-- The branch of `readErr == io.EOF` on bytes with this verdict, and whether they hold a `data:`.
unfoldable pub eof_by : Verdict → Bool → Text → Commit
eof_by error_frame has_data buf = retry unexpected_eof
eof_by committed has_data buf = forward (replay buf [])
eof_by pending true buf = forward (replay buf [])
eof_by pending false buf = retry unexpected_eof

-- The branch of `n > 0`: whether bytes that are too long, or have this verdict, decide at once.
unfoldable pub decide_by : Bool → Verdict → Text → Stream → Option Commit
decide_by true verdict buf rest = some (forward (replay buf rest))
decide_by false error_frame buf rest = some (retry unexpected_eof)
decide_by false committed buf rest = some (forward (replay buf rest))
decide_by false pending buf rest = none

abbrev pub or_else : Option Commit → Commit → Commit
or_else (some c) later = c
or_else none later = later

module _ (inspect : Text → Verdict) where
  unfoldable pub at_eof : Text → Commit
  unfolding eof_by contains
  at_eof [] = retry unexpected_eof
  at_eof (c ∷ buf) = eof_by (inspect (c ∷ buf)) (contains (c ∷ buf) (lit "data:")) (c ∷ buf)

  unfoldable pub decide_now : Text → Text → Stream → Option Commit
  unfolding decide_by
  decide_now [] buf rest = none
  decide_now (c ∷ chunk) buf rest = decide_by (ltb max_ttft_buf (length buf)) (inspect buf) buf rest

  -- The loop of `awaitCommit`.
  unfoldable pub commit_loop : Text → Stream → Commit
  commit_loop buf [] = at_eof buf
  commit_loop buf ((chunk, more) ∷ rest) =
      or_else (decide_now chunk (buf ++ chunk) rest) (commit_loop (buf ++ chunk) rest)
  commit_loop buf ((chunk, eof) ∷ rest) =
      or_else (decide_now chunk (buf ++ chunk) (left_over eof rest)) (at_eof (buf ++ chunk))
  commit_loop buf ((chunk, failed e) ∷ rest) =
      or_else (decide_now chunk (buf ++ chunk) (left_over (failed e) rest)) (retry e)

  -- `awaitCommit`; `none` is the nil stream.
  unfoldable pub await_commit : Option Stream → Commit
  await_commit none = retry unexpected_eof
  await_commit (some s) = commit_loop [] s
