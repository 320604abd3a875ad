-- ===== src/Main/Split.antt =====
-- How the connections and the rate are shared out.
use mathlib.Core.List.{append_assoc, append-nil}
use native.Mathlib.Nat.{div-add-mod, mod-lt}
use wrk.Base.{
  ℕ, zero, suc, ◌+◌, ◌*◌, ◌^◌, ◌<◌, ◌≤◌, ◌%◌, ◌/◌, ◌≡◌, refl, ap, ◌∙◌, Bool, true, not, List, [],
  ◌∷◌, ◌++◌, arith, All, length, add64, mul64,
}
use wrk.Float.{Float}
use wrk.Hdr.{Hdr}
use wrk.Conn.{Config, Thread}
use wrk.Args.Accept.{IsUsable}
use wrk.Verify.{requests}
use wrk.Main.{new_thread, running, create_threads, launch}

abbrev pub connections_of : {H F : Type 0} → List (Thread H F) → ℕ
connections_of [] = 0
connections_of (t ∷ ts) = t.connections + connections_of ts

module _ {H F : Type 0} where
  abbrev copies : ℕ → Thread H F → List (Thread H F)
  copies zero t = []
  copies (suc n) t = t ∷ copies n t

  create_threads_lem :
      (creates : ℕ → Bool) (cfg : Config) (n i : ℕ) (t : Thread H F) (ts : List (Thread H F))
      → ((k : ℕ) → creates k ≡ true)
      → create_threads creates cfg n i t ts ≡ running cfg (ts ++ copies n t)
  unfolding create_threads
  create_threads_lem creates cfg zero i t ts all = rw append-nil refl
  create_threads_lem creates cfg (suc n) i t ts all =
      rw (all i, create_threads_lem creates cfg n (i + 1) t (ts ++ t ∷ []) all) (simp append_assoc)

  copies_lem :
      (n : ℕ) (t : Thread H F)
      → (length (copies n t) ≡ n) × (connections_of (copies n t) ≡ n * t.connections)
  copies_lem zero t = (refl, grind arith)
  copies_lem (suc n) t = let (l, c) = copies_lem n t in (ap suc l, grind (arith, c))

  All-copies : (P : Thread H F → Type 0) (n : ℕ) (t : Thread H F) → P t → All P (copies n t)
  All-copies P zero t h = tt
  All-copies P (suc n) t h = (h, All-copies P n t h)

-- A share of at least one each, as there are no more threads than connections.
share_pos : (c n : ℕ) → 0 < n → n ≤ c → 0 < c / n
share_pos c n pos h = some_share (c / n) (div-add-mod c n) (mod-lt c pos)
  where
    some_share : (q : ℕ) → n * q + c % n ≡ c → c % n < n → 0 < q
    some_share zero e l = absurd (omega (arith, e, l))
    some_share (suc q) e l = omega arith

module _ {H F : Type 0} ⦃fl : Float F⦄ ⦃hdr : Hdr H⦄ where
  -- If the script's request is accepted and all threads can be made, then with a usable configuration as
  -- many threads as asked for run. Each has a connection at least, all of them have the same number, and
  -- the remainder of the division is lost: together they have the number of connections asked for less
  -- that remainder. Each has an equal share of the rate and stops at the end of the duration.
  pub launch_lem :
      (creates : ℕ → Bool) (count : ℕ) (static : Bool) (now : ℕ) (cfg : Config)
      → ((k : ℕ) → creates k ≡ true)
      → IsUsable cfg
      → (ts : List (Thread H F)) × (launch creates (requests count) static now cfg
          ≡ running (record cfg { pipeline = count; dynamic = not static }) ts)
        × (length ts ≡ cfg.threads)
        × (connections_of ts + cfg.connections % cfg.threads ≡ cfg.connections)
        × All
            (λ t.
              (0 < t.connections)
              × (t.throughput ≡ fl.fdiv (fl.of_u64 cfg.rate) (fl.of_u64 cfg.threads))
              × (t.stop_at ≡ (now + cfg.duration * 1_000_000 % 2 ^ 64) % 2 ^ 64))
            ts
  unfolding launch
  launch_lem creates count static now cfg all usable =
      let t : Thread H F = new_thread cfg (add64 now (mul64 cfg.duration 1_000_000)) in
      let (l, c) = copies_lem cfg.threads t in
      (
        copies cfg.threads t,
        create_threads_lem creates (record cfg { pipeline = count; dynamic = not static })
            cfg.threads 0 t [] all,
        l,
        ap (λ k. k + cfg.connections % cfg.threads) c ∙ div-add-mod cfg.connections cfg.threads,
        All-copies _ cfg.threads t (
          share_pos cfg.connections cfg.threads usable.some_threads usable.shared_out,
          refl,
          refl,
        ),
      )
