-- ===== src/Lua/Laws.antt =====
-- What the program relies on of Lua's tables: the manual's description of an assignment and of a new
-- table.
use wrk.Base.{ℕ, false, same_bytes, ◌≡◌, ◌≢◌, List}
use wrk.Lua.{Udata, Value, Heap}

-- `Live` are the tables that there are.
pub record HeapLaws (W F : Type 0) ⦃heap : Heap W F⦄ : Type 1 where
  pub Live : W → ℕ → Type 0
  pub get-put_self : (w : W) (t : ℕ) (k v : Value F) → heap.get (heap.put w t k v) t k ≡ v
  pub get-put_key :
      (w : W) (t : ℕ) (k k' v : Value F)
      → k ≢ k'
      → heap.get (heap.put w t k v) t k' ≡ heap.get w t k'
  pub get-put_table :
      (w : W) (t t' : ℕ) (k k' v : Value F)
      → t ≢ t'
      → heap.get (heap.put w t k v) t' k' ≡ heap.get w t' k'
  pub get-new_table :
      (w : W) (t : ℕ) (k : Value F) → Live w t → heap.get (heap.new_table w).1 t k ≡ heap.get w t k
  pub get-new_userdata :
      (w : W) (u : Udata) (t : ℕ) (k : Value F)
      → heap.get (heap.new_userdata w u).1 t k ≡ heap.get w t k
  pub get-set_metatable :
      (w : W) (r t : ℕ) (m k : Value F) → heap.get (heap.set_metatable w r m) t k ≡ heap.get w t k
  pub new-Live : (w : W) → Live (heap.new_table w).1 (heap.new_table w).0
  pub new-fresh : (w : W) → ¬ Live w (heap.new_table w).0
  pub put-Live : (w : W) (t t' : ℕ) (k v : Value F) → Live w t → Live (heap.put w t' k v) t
  pub global-put :
      (w : W) (name : List ℕ) (t : ℕ) (k v : Value F)
      → heap.global (heap.put w t k v) name ≡ heap.global w name
  pub global-new_table :
      (w : W) (name : List ℕ) → heap.global (heap.new_table w).1 name ≡ heap.global w name
  pub global-set_global :
      (w : W) (name : List ℕ) (v : Value F) → heap.global (heap.set_global w name v) name ≡ v
  pub new_table-Live : (w : W) (t : ℕ) → Live w t → Live (heap.new_table w).1 t
  pub set_registry-Live :
      (w : W) (name : List ℕ) (v : Value F) (t : ℕ) → Live w t → Live (heap.set_registry w name v) t
  pub get-set_registry :
      (w : W) (name : List ℕ) (v : Value F) (t : ℕ) (k : Value F)
      → heap.get (heap.set_registry w name v) t k ≡ heap.get w t k
  pub global-set_registry :
      (w : W) (name : List ℕ) (v : Value F) (n : List ℕ)
      → heap.global (heap.set_registry w name v) n ≡ heap.global w n
  pub registry-set_registry :
      (w : W) (name : List ℕ) (v : Value F) (n : List ℕ)
      → same_bytes name n ≡ false
      → heap.registry (heap.set_registry w name v) n ≡ heap.registry w n
  pub registry-put :
      (w : W) (n : List ℕ) (t : ℕ) (k v : Value F)
      → heap.registry (heap.put w t k v) n ≡ heap.registry w n
  pub registry-new_table :
      (w : W) (n : List ℕ) → heap.registry (heap.new_table w).1 n ≡ heap.registry w n
