-- ===== src/Core/Nonce/Tests.antt =====
-- The pool of the sample server.
use acme_wasm.Prelude.{
  ℕ, ◌≡◌, refl, ◌↔◌, false, [], ◌∷◌, ◌++◌, is_empty, text, ◌is◌, to_lower, eq_ignore_ascii_case, ok,
}
use acme_wasm.Core.Transport.{headers_all, header}
use acme_wasm.Core.Program.{State, done, fails}
use acme_wasm.Core.Nonce.{
  ReplayNonceStore, bad_status, push_all, absorb_pool, absorb, is_pool_empty, pop, pop_front,
  refill, got, get,
}
use acme_wasm.Core.Nonce.Laws.{Got, get-eq-done_iff, Failed, get-eq-fails}
use acme_wasm.Core.Nonce.Queue.{
  fetched_by, start, obtained, History-conserves, IsValid, get-IsValid,
}
use acme_wasm.Core.Sample.{answer, store}

abbrev none_left : State ℕ
none_left = record { pool = []; world = 0 }

abbrev refilled : State ℕ
refilled = record { pool = []; world = 1 }

get_run : get store none_left ≡ done (text "n1") refilled
unfolding get refill pop_front pop push_all got absorb absorb_pool is_pool_empty headers_all header
    eq_ignore_ascii_case to_lower text ◌is◌
get_run = refl

get-eq-done_iff_example :
    (get store none_left ≡ done (text "n1") refilled) ↔ Got store none_left (text "n1") refilled
get-eq-done_iff_example = get-eq-done_iff store none_left (text "n1") refilled

get-IsValid_example : (is_empty (text "n1") ≡ false) × IsValid refilled.pool
get-IsValid_example = get-IsValid store none_left refilled (text "n1") tt get_run

-- a store whose server brings no nonce
abbrev silent : ReplayNonceStore ℕ
silent = record {
  new_nonce_url = [];
  transport = record {
    head = λ url w. (ok (record { status = 503; headers = []; body = [] }), w);
    get = λ url w. (ok answer, w);
    post_jose = λ url body w. (ok answer, w);
  };
}

refused : get silent none_left ≡ fails (bad_status 503) none_left
unfolding get refill pop_front pop got
refused = refl

get-eq-fails_example : Failed silent none_left (bad_status 503) none_left
get-eq-fails_example = get-eq-fails silent none_left (bad_status 503) none_left refused

History-conserves_example :
    none_left.pool ++ ([] ++ fetched_by store none_left.pool none_left)
    ≡ ([] ++ text "n1" ∷ []) ++ refilled.pool
History-conserves_example = History-conserves store (obtained (start none_left) get_run)
