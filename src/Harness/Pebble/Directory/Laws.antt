-- ===== src/Harness/Pebble/Directory/Laws.antt =====
-- How the wait for the directory in crates/testing/src/lib.rs ends.
use mathlib.Core.Path
use acme_wasm.Prelude.{
  ℕ, zero, suc, ◌+◌, ◌≤◌, ◌<◌, ◌≡◌, refl, sym, inl, inr, Bool, true, false, not, ◌&&◌, Option, none,
  some, ◌++◌, arith, ltb, leb, if◌then◌else◌, ltb→lt, Bool-cases, Bytes, Text, text, Result, ok,
  err,
}
use acme_wasm.Core.Polling.{Ticks, Onward}
use acme_wasm.Harness.DnsProvider.{AdminResponse}
use acme_wasm.Harness.Pebble.Host.{
  directory_timeout, Host, Ending, returns, errs, Run, attempt, continue,
}
use acme_wasm.Harness.Pebble.Trust.{reqwest_client_trusting}
use acme_wasm.Harness.Pebble.Directory.{failure_of, gave_up, judge, wait_loop, wait_for_directory}

-- the answer is a success
abbrev pub is_up : Result AdminResponse Text → Bool
is_up (ok resp) = leb 200 resp.status && ltb resp.status 300
is_up (err e) = false

failure_of-none : (r : Result AdminResponse Text) → failure_of r ≡ none → is_up r ≡ true
unfolding failure_of
failure_of-none (err e) h = absurd cc
failure_of-none (ok resp) h = elim (Bool-cases (is_up (ok resp))) [
  | inl e ↦ e
  | inr e ↦ absurd (no_failure (is_up (ok resp)) e h)
]
  where
    no_failure :
        (b : Bool)
        → b ≡ false
        → ◌≡◌ {A = Option Text} (if b then none else some (text "HTTP " ++ resp.status_text)) none
        → ⊥
    no_failure true e h = absurd cc
    no_failure false e h = absurd cc

failure_of-some :
    (r : Result AdminResponse Text) (m : Text) → failure_of r ≡ some m → is_up r ≡ false
unfolding failure_of
failure_of-some (err e) m h = refl
failure_of-some (ok resp) m h = elim (Bool-cases (is_up (ok resp))) [
  | inl e ↦ absurd (a_failure (is_up (ok resp)) e h)
  | inr e ↦ e
]
  where
    a_failure :
        (b : Bool)
        → b ≡ true
        → ◌≡◌ {A = Option Text}
            (if b then none else some (text "HTTP " ++ resp.status_text))
            (some m)
        → ⊥
    a_failure true e h = absurd cc
    a_failure false e h = absurd cc

module _ {W : Type 0} (host : Host W) (client : host.reqwest.Client) (url : Text) where
  -- when the clock is read, and what comes after
  abbrev pub reading : W → ℕ
  reading w = (host.clock.now w).0

  abbrev pub read : W → W
  read w = (host.clock.now w).1

  abbrev pub asked : W → Result AdminResponse Text × W
  asked w = host.reqwest.get client url 2000 (read w)

  -- Rounds before the deadline, in each of which the directory did not answer with a success.
  pub data Rounds (deadline : ℕ) : W → W → Type 0 where
    over : (w : W) → Rounds deadline w w
    round :
        (w last : W)
        → reading w < deadline
        → is_up (asked w).0 ≡ false
        → Rounds deadline (host.clock.sleep 500 (asked w).1) last
        → Rounds deadline w last

  -- The wait ends with the first success before the deadline, or after the deadline without one.
  pub data Waited (timeout deadline : ℕ) (w : W) : Ending W (Unit {0}) → Type 0 where
    served :
        (last : W)
        → Rounds deadline w last
        → reading last < deadline
        → is_up (asked last).0 ≡ true
        → Waited timeout deadline w (returns tt (asked last).1)
    timed_out :
        (last : W) (message : Text)
        → Rounds deadline w last
        → deadline ≤ reading last
        → Waited timeout deadline w
            (errs (directory_timeout timeout) (host.eprintln message (read last)))

  Waited-round :
      (timeout deadline : ℕ) (w : W) (end : Ending W (Unit {0}))
      → reading w < deadline
      → is_up (asked w).0 ≡ false
      → Waited timeout deadline (host.clock.sleep 500 (asked w).1) end
      → Waited timeout deadline w end
  Waited-round timeout deadline w _ early failed (served last rounds at fine) =
      served last (round w last early failed rounds) at fine
  Waited-round timeout deadline w _ early failed (timed_out last message rounds late) =
      timed_out last message (round w last early failed rounds) late

  on_failure :
      (timeout deadline : ℕ) (w : W) (later : Text → Run W (Unit {0})) (failure : Option Text)
      → failure_of (asked w).0 ≡ failure
      → reading w < deadline
      → ((e : Text)
          → Waited timeout deadline
              (host.clock.sleep 500 (asked w).1)
              (later e (host.clock.sleep 500 (asked w).1)))
      → Waited timeout deadline w
          (judge host client url failure (λ e v. later e (host.clock.sleep 500 v)) (asked w).1)
  unfolding judge
  on_failure timeout deadline w later none e early next =
      served w (over w) early (failure_of-none (asked w).0 e)
  on_failure timeout deadline w later (some m) e early next =
      Waited-round timeout deadline w _ early (failure_of-some (asked w).0 m e) (next m)

  on_reading :
      (timeout deadline : ℕ) (w : W) (last_err : Option Text) (later : Text → Run W (Unit {0}))
      (early : Bool)
      → ltb (reading w) deadline ≡ early
      → (reading w < deadline
          → (e : Text)
          → Waited timeout deadline
              (host.clock.sleep 500 (asked w).1)
              (later e (host.clock.sleep 500 (asked w).1)))
      → Waited timeout deadline w (
          (if not early then gave_up host client url timeout last_err else λ v.
          continue
            (let (answer, after) = host.reqwest.get client url 2000 v in
              returns (failure_of answer) after)
            (λ failure. judge host client url failure (λ e u. later e (host.clock.sleep 500 u))))
            (read w))
  unfolding gave_up
  on_reading timeout deadline w last_err later true e next =
      let early = ltb→lt (reading w) deadline e in
      on_failure timeout deadline w later (failure_of (asked w).0) refl early (next early)
  on_reading timeout deadline w last_err later false e next = timed_out w _ (over w) (ground arith)

  module _ (time : W → ℕ) (ticks : Ticks time host.clock)
      (onward : Onward time (host.reqwest.get client url 2000)) where
    wait_loop-Waited :
        (fuel timeout deadline : ℕ) (last_err : Option Text) (w : W)
        → deadline ≤ time w + fuel
        → Waited timeout deadline w
            (wait_loop host client url (suc fuel) timeout deadline last_err w)
    unfolding wait_loop
    wait_loop-Waited zero timeout deadline last_err w enough =
        on_reading timeout deadline w last_err
          (λ e. wait_loop host client url zero timeout deadline (some e)) (ltb (reading w) deadline)
          refl λ early. absurd (omega (arith, ticks.reads w))
    wait_loop-Waited (suc f) timeout deadline last_err w enough =
        on_reading timeout deadline w last_err
          (λ e. wait_loop host client url (suc f) timeout deadline (some e))
          (ltb (reading w) deadline) refl
          λ early e.
            wait_loop-Waited f timeout deadline (some e) (host.clock.sleep 500 (asked w).1) (
              omega (
                arith,
                ticks.reads w,
                ticks.goes_on w,
                onward (read w),
                ticks.sleeps 500 (asked w).1,
              ))

    wait_from :
        (fuel timeout deadline : ℕ) (w : W)
        → deadline ≤ time w + timeout
        → timeout < fuel
        → Waited timeout deadline w (wait_loop host client url fuel timeout deadline none w)
    wait_from zero timeout deadline w near enough = absurd (omega arith)
    wait_from (suc f) timeout deadline w near enough =
        wait_loop-Waited f timeout deadline none w (omega arith)

    -- With more fuel than the timeout has milliseconds, if the client for the CA certificate can be
    -- built: the wait ends, and it returns upon the first answer with a success, which it asked for
    -- before the deadline, or reports the timeout after the deadline, when every answer so far was an
    -- error or another status.
    pub wait_for_directory-Waited :
        (fuel : ℕ) (ca_pem : Bytes) (timeout : ℕ) (w : W)
        → reqwest_client_trusting host ca_pem ≡ some (ok client)
        → timeout < fuel
        → Waited timeout
            (reading w + timeout)
            (read w)
            (wait_for_directory host fuel url ca_pem timeout w)
    unfolding wait_for_directory
    wait_for_directory-Waited fuel ca_pem timeout w trusts enough =
        Path.subst
          (λ o. Waited timeout (reading w + timeout) (read w) (
            continue (attempt o w) (λ client. λ v.
              let (start, after) = host.clock.now v in
              wait_loop host client url fuel timeout (start + timeout) none after)))
          (sym trusts)
          (wait_from fuel timeout (reading w + timeout) (read w) (omega (arith, ticks.goes_on w))
            enough)
