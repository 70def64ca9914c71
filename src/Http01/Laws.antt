-- ===== src/Http01/Laws.antt =====
-- What a validator reads from the path and the body.
use acme_wasm.Prelude.{
  ◌≡◌, ap, ◌∙◌, false, some, [], ◌∷◌, append_assoc, ◌==◌, any, Text, text, strip_prefix,
  strip_prefix-append, split_once, split_once-append,
}
use acme_wasm.Core.Crates.{Crates}
use acme_wasm.Core.Jws.{AccountKey, key_thumbprint}
use acme_wasm.Core.Challenge.{compute_key_authorization}
use acme_wasm.Http01.{path, respond, response_body}

-- For a token without a dot, the last part of the path served is the token, and the body splits at
-- its first dot into the token and the thumbprint of the account key.
pub respond-token :
    (c : Crates) (token : Text) (key : AccountKey c)
    → any (λ b. b == b'.') token ≡ false
    → (strip_prefix (text "/.well-known/acme-challenge/") (respond c token key).path ≡ some token)
      × (split_once b'.' (respond c token key).body ≡ some (token, key_thumbprint c key))
unfolding respond path response_body compute_key_authorization text
respond-token c token key plain = (
  strip_prefix-append (text "/.well-known/acme-challenge/") token,
  ap (split_once b'.') (append_assoc token (b'.' ∷ []) (key_thumbprint c key))
      ∙ split_once-append b'.' token (key_thumbprint c key) plain,
)
