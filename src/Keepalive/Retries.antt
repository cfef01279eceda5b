-- ===== src/Keepalive/Retries.antt =====
-- When keepAlive gives up.
use lslc_core.Common.{
  ℕ, zero, suc, ◌+◌, ◌≤◌, ◌<◌, true, false, ◌≡◌, refl, ok, err, leb, leb→le, arith, Bool-cases, inl,
  inr, ◌⊎◌, Result-cases, subst,
}
use lslc_core.Resource.{CatalogError, not_found, conflict, bad_request, other, panicked}
use lslc_core.Keepalive.{
  Client, Status, running, gave_up, refresh, keep_ticking, keepalive_retries, keep_alive, register,
}

module _ (c : Client) where
  -- A tick is lost if neither the update nor, where the catalog reports no such registration, the
  -- addition succeeds: what RegisterDevice returns.
  abbrev pub IsLost : c.State → Type 0
  IsLost s = (x : CatalogError) × ((register c s).1 ≡ err x)

  -- The remote catalog after some ticks that are lost, one after the other.
  pub data Lost : ℕ → c.State → c.State → Type 0 where
    no_tick : {s : c.State} → Lost 0 s s
    lost_tick : {n : ℕ} {s t : c.State} → IsLost s → Lost n (register c s).0 t → Lost (suc n) s t

  -- A tick does to the catalog what RegisterDevice does; errTries counts the lost ticks.
  refresh_lost :
      (s : c.State) (tries : ℕ) → IsLost s → refresh c s tries ≡ ((register c s).0, suc tries)
  unfolding refresh register
  refresh_lost s tries (x, h) = elim (Result-cases (c.update s).1) [
    | inl (_, good) ↦ let bad : ⊥ = cc (rw (good, register) at h) in absurd bad
    | inr (not_found m, missing) ↦
        let failed : (c.add (c.update s).0).1 ≡ err x = rw (missing, register) at h in
        rw (missing, failed, refresh, register) refl
    | inr (conflict m, failed) ↦ rw (failed, refresh, register) refl
    | inr (bad_request m, failed) ↦ rw (failed, refresh, register) refl
    | inr (other m, failed) ↦ rw (failed, refresh, register) refl
    | inr (panicked m, failed) ↦ rw (failed, refresh, register) refl
  ]

  refresh_kept :
      (s : c.State) (tries : ℕ)
      → (register c s).1 ≡ ok tt
      → refresh c s tries ≡ ((register c s).0, 0)
  unfolding refresh register
  refresh_kept s tries h = elim (Result-cases (c.update s).1) [
    | inl (_, good) ↦ rw (good, refresh, register) refl
    | inr (not_found m, missing) ↦
        let added : (c.add (c.update s).0).1 ≡ ok tt = rw (missing, register) at h in
        rw (missing, added, refresh, register) refl
    | inr (conflict m, failed) ↦ let bad : ⊥ = cc (rw (failed, register) at h) in absurd bad
    | inr (bad_request m, failed) ↦ let bad : ⊥ = cc (rw (failed, register) at h) in absurd bad
    | inr (other m, failed) ↦ let bad : ⊥ = cc (rw (failed, register) at h) in absurd bad
    | inr (panicked m, failed) ↦ let bad : ⊥ = cc (rw (failed, register) at h) in absurd bad
  ]

  -- A number of ticks from the catalog `s` to the catalog `t`, of which the last `k` are lost in a
  -- row and no more than those; no five in a row are lost.
  pub data Ticked (s : c.State) : ℕ → ℕ → c.State → Type 0 where
    started : Ticked s 0 0 s
    next_kept :
        {n k : ℕ} {t : c.State}
        → Ticked s n k t
        → (register c t).1 ≡ ok tt
        → Ticked s (suc n) 0 (register c t).0
    next_lost :
        {n k : ℕ} {t : c.State}
        → Ticked s n k t
        → suc k < keepalive_retries
        → IsLost t
        → Ticked s (suc n) (suc k) (register c t).0

  -- How `n` ticks from `s` on end: all are made, none of them the fifth that is lost in a row, and
  -- errTries is the number of the last ticks that are lost; or one tick, the first that is the fifth
  -- lost in a row, ends the routine, and its catalog stays.
  abbrev pub Ended : c.State → ℕ → c.State × Status → Type 0
  Ended s n (t, status) =
      ((k : ℕ) × (status ≡ running k) × Ticked s n k t)
      ⊎ ((status ≡ gave_up)
          × (m : ℕ) × (u : c.State) × (m < n)
          × Ticked s m 4 u
          × IsLost u
          × (t ≡ (register c u).0))

  keep_ticking-Ended :
      (n m i : ℕ) (s0 s : c.State) (tries : ℕ)
      → m + n ≡ i
      → tries < keepalive_retries
      → Ticked s0 m tries s
      → Ended s0 i (keep_ticking c n s tries)
  unfolding keep_ticking
  keep_ticking-Ended zero m i s0 s tries e h l =
      let same : m ≡ i = omega arith in inl (tries, refl, subst (λ j. Ticked s0 j tries s) same l)
  keep_ticking-Ended (suc n) m i s0 s tries e h l = elim (Result-cases (register c s).1) [
    | inl (_, good) ↦
        rw (refresh_kept s tries good, keep_ticking)
          (keep_ticking-Ended n (suc m) i s0 (register c s).0 0 (omega arith) (omega arith)
            (next_kept l good))
    | inr (x, bad) ↦ elim (Bool-cases (leb keepalive_retries (suc tries))) [
      | inl last ↦
          let four : tries ≡ 4 =
            let most = leb→le keepalive_retries (suc tries) last in omega arith in
          rw (refresh_lost s tries (x, bad), last, keep_ticking)
            (inr (refl, m, s, omega arith, subst (λ k. Ticked s0 m k s) four l, (x, bad), refl))
      | inr more ↦
          let less : suc tries < keepalive_retries = ground arith in
          rw (refresh_lost s tries (x, bad), more, keep_ticking)
            (keep_ticking-Ended n (suc m) i s0 (register c s).0 (suc tries) (omega arith) less
              (next_lost l less (x, bad)))
    ]
  ]

  -- After any number of ticks, either keepAlive still runs, has made them all, and errTries is
  -- exactly the number of the last ticks that were lost in a row, which is less than five; or it has
  -- given up at the first tick that was the fifth in a row to be lost, and left the catalog as that
  -- tick left it. A tick is lost if the registration is neither updated nor, where the catalog
  -- reports that it does not have it, added; each tick begins with the catalog that the tick before
  -- it left, and the first with that of the registration.
  pub keep_alive-Ended : (n : ℕ) (s : c.State) → Ended (register c s).0 n (keep_alive c n s)
  unfolding keep_alive
  keep_alive-Ended n s =
      keep_ticking-Ended n 0 n (register c s).0 (register c s).0 0 (omega arith) (omega arith)
        started

  keep_ticking-Lost :
      (k n : ℕ) (s t : c.State) (tries : ℕ)
      → k + tries ≡ keepalive_retries
      → 0 < k
      → k ≤ n
      → Lost k s t
      → keep_ticking c n s tries ≡ (t, gave_up)
  unfolding keep_ticking
  keep_ticking-Lost zero n s t tries e h m l = absurd (omega arith)
  keep_ticking-Lost (suc k) zero s t tries e h m l = absurd (omega arith)
  keep_ticking-Lost (suc zero) (suc n) s t tries e h m (lost_tick lost no_tick) =
      let last : leb keepalive_retries (suc tries) ≡ true = ground arith in
      rw (refresh_lost s tries lost, last, keep_ticking) refl
  keep_ticking-Lost (suc (suc k)) (suc n) s t tries e h m (lost_tick lost rest) =
      let more : leb keepalive_retries (suc tries) ≡ false = ground arith in
      rw (refresh_lost s tries lost, more, keep_ticking)
        (keep_ticking-Lost (suc k) n (register c s).0 t (suc tries) (omega arith) (omega arith)
          (omega arith) rest)

  -- If the first five ticks after the registration are all lost, keepAlive gives up at the fifth,
  -- and leaves the catalog as that tick left it.
  pub keep_alive_gives_up :
      (n : ℕ) (s t : c.State)
      → keepalive_retries ≤ n
      → Lost keepalive_retries (register c s).0 t
      → keep_alive c n s ≡ (t, gave_up)
  unfolding keep_alive
  keep_alive_gives_up n s t h l =
      keep_ticking-Lost keepalive_retries n (register c s).0 t 0 (omega arith) (omega arith) h l
