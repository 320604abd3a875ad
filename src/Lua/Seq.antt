-- ===== src/Lua/Seq.antt =====
-- One step of a `do` block.
use wrk.Base.{◌≡◌}
use wrk.Lua.{Raised, ok, raised, fault, no_fuel, Step, ◌>>=◌}

module _ {S F A B : Type 0} where
  pub bind_ok :
      (m : Step S F A) (f : A → Step S F B) (s : S) {s' : S} {a : A}
      → m s ≡ ok (a, s')
      → (m >>= f) s ≡ f a s'
  bind_ok m f s p = rw (p, ◌>>=◌)

  pub bind_raised :
      (m : Step S F A) (f : A → Step S F B) (s : S) {e : Raised F}
      → m s ≡ raised e
      → (m >>= f) s ≡ raised e
  bind_raised m f s p = rw (p, ◌>>=◌)

  pub bind_no_fuel :
      (m : Step S F A) (f : A → Step S F B) (s : S) → m s ≡ no_fuel → (m >>= f) s ≡ no_fuel
  bind_no_fuel m f s p = rw (p, ◌>>=◌)

  pub bind_fault : (m : Step S F A) (f : A → Step S F B) (s : S) → m s ≡ fault → (m >>= f) s ≡ fault
  bind_fault m f s p = rw (p, ◌>>=◌)
