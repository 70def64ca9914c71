-- ===== src/Core/Sample.antt =====
-- A small server and small crates, on which the examples run. The world is the time of day in
-- milliseconds; every answer of the server is a success.
use acme_wasm.Prelude.{
  length, ℕ, ◌+◌, refl, true, false, none, some, List, [], ◌∷◌, ◌++◌, take, Text, text, join, ok,
  err,
}
use acme_wasm.Core.Json.{end}
use acme_wasm.Core.Transport.{HttpResponse, HttpClient}
use acme_wasm.Core.Clock.{Clock}
use acme_wasm.Core.Crates.{Crates}
use acme_wasm.Core.Program.{State}
use acme_wasm.Core.Records.Order.{Order}
use acme_wasm.Core.Records.Account.{AccountRecord}
use acme_wasm.Core.Records.Directory.{Directory}
use acme_wasm.Core.Records.Challenge.{Challenge, http01}
use acme_wasm.Core.Records.Authorization.{Authorization}
use acme_wasm.Core.Challenge.{ChallengeReady, ChallengeSolver}
use acme_wasm.Core.Nonce.{ReplayNonceStore}
use acme_wasm.Core.Jws.{AccountKey, ed25519}
use acme_wasm.Core.Csr.{CertificateKey}
use acme_wasm.Core.Account.{Account}

abbrev pub order : Order
order = record {
  status = text "valid";
  expires = none;
  identifiers = record { kind = text "dns"; value = text "example.org" } ∷ [];
  not_before = none;
  not_after = none;
  error = none;
  authorizations = text "/authz" ∷ [];
  finalize = text "/finalize";
  certificate = some (text "/cert");
  url = text "/order";
}

abbrev pub challenge : Challenge
challenge = record {
  type = text "http-01";
  url = text "/challenge";
  status = text "valid";
  validated = none;
  token = some (text "token");
  error = none;
}

abbrev pub authorization : Authorization
authorization = record {
  identifier = record { kind = text "dns"; value = text "example.org" };
  status = text "pending";
  expires = none;
  challenges = challenge ∷ [];
  wildcard = false;
}

abbrev pub directory : Directory
directory = record {
  new_nonce = text "/nonce";
  new_account = text "/account";
  new_order = text "/new-order";
  new_authz = none;
  revoke_cert = text "/revoke";
  key_change = text "/key";
  renewal_info = none;
  meta = record {
    terms_of_service = none;
    website = none;
    caa_identities = [];
    external_account_required = false;
    extra = end;
  };
}

abbrev pub account_record : AccountRecord
account_record = record {
  status = text "valid";
  contact = [];
  terms_of_service_agreed = some true;
  orders = none;
  external_account_binding = none;
}

abbrev pub crates : Crates
crates = record {
  RsaPrivateKey = Unit;
  P256Key = Unit;
  P384Key = Unit;
  Ed25519Key = Unit;
  rsa_n = λ k. 1 ∷ [];
  rsa_e = λ k. 3 ∷ [];
  p256_x = λ k. 1 ∷ [];
  p256_y = λ k. 2 ∷ [];
  p384_x = λ k. 1 ∷ [];
  p384_y = λ k. 2 ∷ [];
  ed25519_bytes = λ k. 7 ∷ [];
  rsa_sign = λ k b. b;
  p256_sign = λ k b. b;
  p384_sign = λ k b. b;
  ed25519_sign = λ k b. b;
  sha256 = λ b. take 32 b;
  b64url = λ b. b;
  to_vec = λ v. ok [];
  value_bytes = λ v. [];
  to_vec_ok = λ v. refl;
  header_to_vec = λ h. ok (h.nonce ++ h.url);
  flattened_to_vec =
      λ f. ok (length f.protected ∷ length f.payload ∷ f.protected ++ (f.payload ++ f.signature));
  problem_from_slice = λ b. err [];
  directory_from_slice = λ b. ok directory;
  account_from_slice = λ b. ok account_record;
  order_from_slice = λ b. ok order;
  challenge_from_slice = λ b. ok challenge;
  authorization_from_slice = λ b. ok authorization;
  KeyPair = Unit;
  CertificateParams = List Text;
  params_new = λ names. ok names;
  serialize_request = λ names k. ok (join (text ",") names);
  debug_duration = λ d. text "long";
  debug_texts = λ ts. [];
}

abbrev pub answer : HttpResponse
answer = record {
  status = 200;
  headers = (text "Replay-Nonce", text "n1") ∷ (text "Location", text "/order") ∷ [];
  body = [];
}

abbrev pub client : HttpClient ℕ
client = record {
  head = λ url w. (ok answer, w + 1);
  get = λ url w. (ok answer, w + 1);
  post_jose = λ url body w. (ok answer, w + 1);
}

abbrev pub clock : Clock ℕ
clock = record { now = λ w. (w, w); sleep = λ d w. w + d }

abbrev pub handle : ChallengeReady ℕ
handle = record { self_check = λ w. (ok tt, w); drop = λ w. w + 5 }

abbrev pub solver : ChallengeSolver ℕ
solver = record { kind = http01; arm = λ id proof w. (ok handle, w + 1) }

abbrev pub account_key : AccountKey crates
account_key = ed25519 tt

abbrev pub certificate_key : CertificateKey crates
certificate_key = record { key_pair = tt }

abbrev pub store : ReplayNonceStore ℕ
store = record { new_nonce_url = text "/nonce"; transport = client }

abbrev pub account : Account crates ℕ
account = record {
  account = account_record;
  kid = text "/account/1";
  key = account_key;
  nonce = store;
  directory = directory;
}

-- at time 0, with an empty pool
abbrev pub begin : State ℕ
begin = record { pool = []; world = 0 }
