-- ===== src/Entry/Proxied.antt =====
-- A user of another server who logs in here is served by the home server.
use astralrelay_online.Common.{ℕ, ◌≡◌, refl, Bool, none, ◌++◌, Result, ok, err}
use astralrelay_online.Common.Text.{Text}
use astralrelay_online.Common.Cuts.{has_prefix-append, drop-append}
use astralrelay_online.Federation.Client.{Client}
use astralrelay_online.Auth.Tables.{Store}
use astralrelay_online.Auth.Tokens.{Service, parse_token, validate_token}
use astralrelay_online.Entry.Middleware.{
  Refusal, bearer, extract_token, Incoming, Outgoing, home_url,
}
use astralrelay_online.Entry.Requests.{LoginReply}

pub extract_token-bearer : (t : Text) → extract_token (bearer ++ t) ≡ t
unfolding extract_token
extract_token-bearer t = rw (has_prefix-append bearer t) (drop-append bearer t)

-- A text that is no JWT is no token of this server.
pub validate_token_unsigned :
    (s : Service) (fails : Bool) (now : ℕ) (t : Text) (st : Store)
    → s.verify t ≡ none
    → validate_token s fails now t st.tokens ≡ none
unfolding validate_token parse_token
validate_token_unsigned s fails now t st h =
    let unread : parse_token s now t ≡ none = rw (h, parse_token) refl in
    rw (unread, validate_token) refl

abbrev reply_token : Result Refusal LoginReply → Result Refusal Text
reply_token (ok reply) = ok reply.access_token
reply_token (err e) = err e

abbrev pub sent_on : Incoming → Text → Text → Outgoing
sent_on q domain token = record {
  method = q.method;
  url = home_url q domain;
  body = q.body;
  authorization = bearer ++ token;
  content_type = q.content_type;
  protocol_version = q.protocol_version;
  idempotency_key = q.idempotency_key;
}
