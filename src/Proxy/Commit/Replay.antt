-- ===== src/Proxy/Commit/Replay.antt =====
-- A committed stream replays every byte.
use openllms.Prelude.{
  [], ◌∷◌, ◌++◌, Option, none, some, Bool, true, false, length, Text, ◌≡◌, ◌≢◌, ◌≤◌, refl, arith,
}
use mathlib.Core.List.{append-nil, append_assoc}
use openllms.Proxy.Commit.{
  ReadStatus, more, eof, failed, Stream, Verdict, committed, error_frame, pending, Commit, forward,
  retry, left_over, eof_by, decide_by, or_else, at_eof, decide_now, commit_loop, await_commit,
  unexpected_eof, max_ttft_buf,
}

-- The bytes that a reader of the stream gets, up to its end or its first error, and that error.
pub contents : Stream → Text
contents [] = []
contents ((chunk, more) ∷ rest) = chunk ++ contents rest
contents ((chunk, eof) ∷ rest) = chunk
contents ((chunk, failed e) ∷ rest) = chunk

pub read_error : Stream → Option Text
read_error [] = none
read_error ((chunk, more) ∷ rest) = read_error rest
read_error ((chunk, eof) ∷ rest) = none
read_error ((chunk, failed e) ∷ rest) = some e

-- What a forwarded stream has to be.
abbrev Replays : Text → Option Text → Commit → Type 0
Replays bytes err (forward out) = (contents out ≡ bytes) × (read_error out ≡ err)
Replays bytes err (retry e) = Unit {0}

eof_by-Replays :
    (v : Verdict) (has_data : Bool) (buf : Text) → Replays buf none (eof_by v has_data buf)
unfolding eof_by contents read_error
eof_by-Replays error_frame has_data buf = tt
eof_by-Replays committed has_data buf = (append-nil buf, refl)
eof_by-Replays pending true buf = (append-nil buf, refl)
eof_by-Replays pending false buf = tt

abbrev ReplaysIf : Text → Option Text → Option Commit → Type 0
ReplaysIf bytes err none = Unit {0}
ReplaysIf bytes err (some c) = Replays bytes err c

decide_by-replays :
    (long : Bool) (v : Verdict) (buf : Text) (rest : Stream)
    → ReplaysIf (buf ++ contents rest) (read_error rest) (decide_by long v buf rest)
unfolding decide_by contents read_error
decide_by-replays true v buf rest = (refl, refl)
decide_by-replays false error_frame buf rest = tt
decide_by-replays false committed buf rest = (refl, refl)
decide_by-replays false pending buf rest = tt

or_else-Replays :
    (bytes : Text) (err : Option Text) (o : Option Commit) (later : Commit)
    → ReplaysIf bytes err o
    → Replays bytes err later
    → Replays bytes err (or_else o later)
or_else-Replays bytes err none later h k = k
or_else-Replays bytes err (some c) later h k = h

module _ (inspect : Text → Verdict) where
  at_eof-Replays : (buf : Text) → Replays buf none (at_eof inspect buf)
  unfolding at_eof
  at_eof-Replays [] = tt
  at_eof-Replays (c ∷ buf) = eof_by-Replays _ _ (c ∷ buf)

  decide_now-replays :
      (chunk buf : Text) (rest : Stream)
      → ReplaysIf (buf ++ contents rest) (read_error rest) (decide_now inspect chunk buf rest)
  unfolding decide_now
  decide_now-replays [] buf rest = tt
  decide_now-replays (c ∷ chunk) buf rest = decide_by-replays _ _ buf rest

  commit_loop-Replays :
      (buf : Text) (s : Stream)
      → Replays (buf ++ contents s) (read_error s) (commit_loop inspect buf s)
  unfolding commit_loop contents read_error
  commit_loop-Replays buf [] = rw (append-nil buf) (at_eof-Replays buf)
  commit_loop-Replays buf ((chunk, more) ∷ rest) = rw (← append_assoc buf chunk (contents rest)) (
      or_else-Replays _ _ _ _ (decide_now-replays chunk (buf ++ chunk) rest)
        (commit_loop-Replays (buf ++ chunk) rest))
  commit_loop-Replays buf ((chunk, eof) ∷ rest) =
      or_else-Replays _ _ _ _
        (rw (append-nil (buf ++ chunk)) at
          (decide_now-replays chunk (buf ++ chunk) (left_over eof rest)))
        (at_eof-Replays (buf ++ chunk))
  commit_loop-Replays buf ((chunk, failed e) ∷ rest) =
      or_else-Replays _ _ _ _
        (rw (append-nil (buf ++ chunk)) at
          (decide_now-replays chunk (buf ++ chunk) (left_over (failed e) rest)))
        tt

  -- A stream that awaitCommit forwards gives its reader exactly the bytes of the upstream, in
  -- order, and ends as the upstream ends, in a clean end or in its error.
  pub await_commit_replays :
      (s out : Stream)
      → await_commit inspect (some s) ≡ forward out
      → (contents out ≡ contents s) × (read_error out ≡ read_error s)
  unfolding await_commit
  await_commit_replays s out e = rw e at (commit_loop-Replays [] s)

  -- A stream whose first read holds an error frame, within the buffer limit, is not forwarded, and
  -- the next seat is tried.
  await_commit_error_first :
      (chunk : Text) (st : ReadStatus) (rest : Stream)
      → chunk ≢ []
      → length chunk ≤ max_ttft_buf
      → inspect chunk ≡ error_frame
      → (await_commit inspect (some ((chunk, st) ∷ rest)) ≡ retry unexpected_eof)
  unfolding await_commit commit_loop decide_now decide_by
  await_commit_error_first [] st rest n le e = absurd (n refl)
  await_commit_error_first (c ∷ chunk) more rest n le e = ground arith
  await_commit_error_first (c ∷ chunk) eof rest n le e = ground arith
  await_commit_error_first (c ∷ chunk) (failed x) rest n le e = ground arith
