-- ===== src/Tests/Renewal.antt =====
-- The theorems on the renewal of tokens in internal/proxy, at a sample secret store.
use openllms.Prelude.{
  ℕ, ◌+◌, ◌-◌, ◌≡◌, [], ◌∷◌, Option, none, some, arith, Text, lit, refl, text_eq, text_eq_refl,
  ◌==◌, if◌then◌else◌,
}
use openllms.Assoc.{nat_eq, text_instance}
use openllms.Oauth.{Credential, ok, Tokens, Outside}
use openllms.Oauth.Refresh.{refresh_oauth_credential}
use openllms.Oauth.Kept.{Durable, Kept, refresh_oauth_credential-Kept}
use openllms.Tests.{first}

-- A secret store of one path, whose put fails while the switch is on; every vendor gives new tokens.
abbrev tokens : Tokens
tokens = record {
  access_token = lit "new";
  refresh_token = [];
  expires_at = lit "2030";
  id_token = [];
  chatgpt_account_id = [];
}

abbrev credential : Text → Credential
credential access = record {
  api_key = [];
  access_token = access;
  refresh_token = lit "r";
  expires_at = [];
  id_token = [];
  chatgpt_account_id = [];
}

-- A credential as six texts, each letter one up, with a zero behind each text.
abbrev write_text : Text → Text → Text
write_text [] rest = 0 ∷ rest
write_text (c ∷ s) rest = (c + 1) ∷ write_text s rest

abbrev read_text : Text → Text × Text
read_text [] = ([], [])
read_text (c ∷ s) = let (t, rest) = read_text s in if c == 0 then ([], s) else ((c - 1) ∷ t, rest)

read_written_text : (s rest : Text) → read_text (write_text s rest) ≡ (s, rest)
read_written_text [] rest = refl
read_written_text (c ∷ s) rest = ground (arith, read_written_text s rest)

abbrev write_credential : Credential → Text
write_credential c = write_text c.api_key (
    write_text c.access_token (
      write_text c.refresh_token
        (write_text c.expires_at (write_text c.id_token (write_text c.chatgpt_account_id [])))))

abbrev read_credential : Text → Option Credential
read_credential t =
    let (api_key, t1) = read_text t in
    let (access_token, t2) = read_text t1 in
    let (refresh_token, t3) = read_text t2 in
    let (expires_at, t4) = read_text t3 in
    let (id_token, t5) = read_text t4 in
    let (chatgpt_account_id, t6) = read_text t5 in
    some (record {
      api_key = api_key;
      access_token = access_token;
      refresh_token = refresh_token;
      expires_at = expires_at;
      id_token = id_token;
      chatgpt_account_id = chatgpt_account_id;
    })

read_written_credential : (c : Credential) → read_credential (write_credential c) ≡ some c
read_written_credential c =
    rw
      (
        read_written_text c.api_key (
            write_text c.access_token (
              write_text c.refresh_token (
                write_text c.expires_at
                  (write_text c.id_token (write_text c.chatgpt_account_id []))))),
        read_written_text c.access_token (
            write_text c.refresh_token (
              write_text c.expires_at
                (write_text c.id_token (write_text c.chatgpt_account_id [])))),
        read_written_text c.refresh_token
            (write_text c.expires_at (write_text c.id_token (write_text c.chatgpt_account_id []))),
        read_written_text c.expires_at (write_text c.id_token (write_text c.chatgpt_account_id [])),
        read_written_text c.id_token (write_text c.chatgpt_account_id []),
        read_written_text c.chatgpt_account_id [],
      )
      refl

-- A store of one secret: a put fails while the number is odd, and a pause makes it even.
abbrev pub store : Outside
store = record {
  W = ℕ × Text;
  get = λ path w. (ok w.1, w);
  put = λ path raw w. if w.0 == 1 then (some (lit "down"), w) else (none, (w.0, raw));
  pause = λ w. (none, w);
  invalidate = λ path w. w;
  refresh = λ vendor token w. (ok tokens, w);
  now = λ w. 0;
  encode = write_credential;
  decode = read_credential;
  parse_time = λ t. none;
  holds = λ w path raw. text_eq w.1 raw;
}

durable : Durable store
durable = record {
  put_stores = λ path raw w e. ground (arith, e, text_eq_refl raw);
  get_reads = λ path raw w e. ground (arith, e, text_eq_refl raw);
  decode-encode = read_written_credential;
}

abbrev pub secrets_up : ℕ × Text
secrets_up = (0, write_credential (credential (lit "old")))

abbrev secrets_down : ℕ × Text
secrets_down = (1, write_credential (credential (lit "old")))

refresh_oauth_credential-Kept_example :
    Kept store first.id first.infisical_path
      (refresh_oauth_credential store first (credential (lit "old")) [] secrets_up)
refresh_oauth_credential-Kept_example =
    refresh_oauth_credential-Kept store durable first (credential (lit "old")) [] secrets_up
