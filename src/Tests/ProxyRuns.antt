-- ===== src/Tests/ProxyRuns.antt =====
-- The theorems on internal/proxy, at a sample dispatch, a sample stream and sample bodies.
use openllms.Prelude.{
  ℕ, ◌+◌, ◌==◌, ◌≡◌, refl, ◌⊎◌, [], ◌∷◌, ◌++◌, Option, none, some, true, false, if◌then◌else◌, lit,
  Text, is_empty, trim_space, text_eq,
}
use openllms.Prelude.Int.{ℤ, pos}
use openllms.Config.{Any, Fields, end, field, get, get_str}
use openllms.Router.Status.{absent}
use openllms.Proxy.Affinity.{Affinity}
use openllms.Proxy.Commit.{
  Stream, Verdict, committed, error_frame, pending, more, eof, replay, await_commit, commit_loop,
  decide_now, decide_by,
}
use openllms.Proxy.Commit.Replay.{contents, read_error, await_commit_replays}
use openllms.Proxy.Commit.Inspect.{inspect_ttft, or_next, inspect_ttft-append}
use openllms.Proxy.Models.{
  Body, json, applied, account_serves_model, resolve_outbound_model, apply_account_model,
}
use openllms.Proxy.Models.Serves.{resolve_outbound_model_sound}
use openllms.Proxy.Models.Rewrite.{apply_account_model_object}
use openllms.Proxy.Engine.{Result, Engine}
use openllms.Proxy.Dispatch.{World}
use openllms.Tests.{first, selector}

abbrev pub answer : ℕ → ℕ → Result
answer id code = record {
  status_code = code;
  body = [];
  latency = 1;
  tokens_in = 0;
  tokens_out = 0;
  account_id = id;
  model = [];
  error = [];
  stream = none;
  retry_after = absent;
  attempts = 0;
  strategy = [];
  session_key = [];
  sticky_hit = false;
  failovers = [];
}

-- Every call takes a second; seat 13 answers, the others are rate limited.
abbrev pub clockwork : World ℤ
clockwork = record {
  W = ℕ;
  now = λ w. w;
  call =
      λ acc b w. ((some (answer acc.id (if acc.id == 13 then 200 else 429)), none), w + 1000000000);
}

abbrev pub affinity : Affinity
affinity = record { ttl = pos 3600000000000; m = [] }

abbrev pub engine : Engine
engine = record { selector = selector; affinity = affinity; cooldowns = []; healthy = [] }

abbrev pub request : Fields ℤ
request = field (lit "model") (Any.str (lit "gpt-4")) end

abbrev pub body : Body ℤ
body = json (Any.obj request)

-- A frame is a token unless it starts with an exclamation mark.
abbrev pub inspect : Text → Verdict
inspect [] = pending
inspect (c ∷ s) = if c == b'!' then error_frame else committed

abbrev stream : Stream
stream = (lit "ok", more) ∷ (lit "then", eof) ∷ []

abbrev forwarded : Stream
forwarded = replay (lit "ok") ((lit "then", eof) ∷ [])

await_commit_replays_example :
    (contents forwarded ≡ contents stream) × (read_error forwarded ≡ read_error stream)
unfolding await_commit commit_loop decide_now decide_by
await_commit_replays_example = await_commit_replays inspect stream forwarded refl

-- A decoder that reads every payload as an empty object.
abbrev decode : Text → Option (Fields ℤ)
decode payload = some end

inspect_ttft-append_example :
    inspect_ttft decode (lit "data: [DONE]" ++ (b'\n' ∷ lit "data: x"))
    ≡ or_next decode
        (inspect_ttft decode (lit "data: [DONE]"))
        (inspect_ttft decode (lit "data: x"))
inspect_ttft-append_example = inspect_ttft-append decode (lit "data: [DONE]") (lit "data: x")

resolve_outbound_model_sound_example :
    let r = resolve_outbound_model (lit "claude-x") (some first) (lit "gpt-5") in
    (r.1 ≡ true → (account_serves_model (some first) r.0 ≡ true) ⊎ (r.0 ≡ trim_space []))
    × (r.1 ≡ false
        → (r.0 ≡ trim_space (lit "claude-x"))
          × (account_serves_model (some first) r.0 ≡ false)
          × (is_empty (trim_space []) ≡ true))
resolve_outbound_model_sound_example =
    resolve_outbound_model_sound (lit "claude-x") (lit "gpt-5") first

apply_account_model_object_example :
    let next =
      (resolve_outbound_model (get_str (lit "model") request) (some first) (lit "gpt-5")).0 in
    (fs' : Fields ℤ) × (apply_account_model body (some first) (lit "gpt-5")
      ≡ applied (json (Any.obj fs')))
    × ((get_str (lit "model") fs' ≡ next)
        ⊎ ((fs' ≡ request)
            × ((is_empty next ≡ true) ⊎ (next ≡ trim_space (get_str (lit "model") request)))))
    × ((k : Text) → text_eq (lit "model") k ≡ false → get k fs' ≡ get k request)
apply_account_model_object_example = apply_account_model_object request first (lit "gpt-5")
