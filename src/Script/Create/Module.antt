-- ===== src/Script/Create/Module.antt =====
-- What `script_create` of src/script.c leaves in the module `wrk` of the script.
use wrk.Base.{
  ℕ, ◌≡◌, ◌≢◌, refl, ap, sym, ◌∙◌, Bool, Option, none, some, List, [], ◌∷◌, arith, codes,
  same_bytes,
}
use wrk.Float.{Float}
use wrk.Url.{UrlParts, Pushed, push_url_part, uf_schema, uf_host, uf_port}
use wrk.Lua.{
  wrk_lookup, wrk_connect, wrk_time_us, Value, nil, string, table, Heap, Machine, ok, fault, M,
  pure, ◌>>=◌, ◌>>◌,
}
use wrk.Lua.Api.{pop, getglobal, getfield, from_base}
use wrk.Lua.Laws.{HeapLaws}
use wrk.Lua.Seq.{bind_ok}
use wrk.Script.{c_function, text, TableField, set_fields}
use wrk.Script.Fields.{
  put_fields, HasFields, AreDistinct, NotAmong, set_fields_lem, put_fields-HasFields,
  put_fields-other, HasFields-kept, put_fields-NotAmong,
}
use wrk.Script.Create.{
  path_of, header_of, addrlib, statslib, threadlib, wrk_fields, pushed_value, push_part, set_field,
  put_headers, metatable, do_file, script_create,
}
use wrk.Script.Create.Headers.{with_header, with_headers, put_headers_lem}
use wrk.Script.Create.Meta.{
  names_apart, with_meta, with_metas, metatable_lem, registry-with_meta, global-with_meta,
  with_metas-Keeps,
}

-- The fields of `wrk` that come from the URL, and all that are set.
abbrev pub url_fields : Pushed → Pushed → Pushed → List TableField
url_fields schema host port =
    record { name = codes "scheme"; value = pushed_value schema }
    ∷ record { name = codes "host"; value = pushed_value host }
    ∷ record { name = codes "port"; value = pushed_value port }
    ∷ []

abbrev pub module_fields : Pushed → Pushed → Pushed → List ℕ → List TableField
module_fields schema host port path =
    record { name = codes "scheme"; value = pushed_value schema }
    ∷ record { name = codes "host"; value = pushed_value host }
    ∷ record { name = codes "port"; value = pushed_value port }
    ∷ record { name = codes "lookup"; value = c_function wrk_lookup }
    ∷ record { name = codes "connect"; value = c_function wrk_connect }
    ∷ record { name = codes "time_us"; value = c_function wrk_time_us }
    ∷ record { name = codes "path"; value = text path }
    ∷ []

module_fields-AreDistinct :
    (schema host port : Pushed) (path : List ℕ)
    → AreDistinct (module_fields schema host port path)
      × NotAmong (codes "headers") (module_fields schema host port path)
unfolding same_bytes
module_fields-AreDistinct schema host port path = ground arith

module _ {W F : Type 0} ⦃fl : Float F⦄ ⦃heap : Heap W F⦄ where
  -- Behind the metatables, which are on the stack.
  abbrev body :
      Pushed → Pushed → Pushed → List ℕ → List (List ℕ) → M W F (Unit {0}) → M W F (Unit {0})
  body schema host port path headers load = do
    getglobal (codes "wrk")
    push_part (some schema)
    set_field (from_base 4) (codes "scheme")
    push_part (some host)
    set_field (from_base 4) (codes "host")
    push_part (some port)
    set_field (from_base 4) (codes "port")
    set_fields (from_base 4) (wrk_fields path)
    getfield (from_base 4) (codes "headers")
    put_headers headers
    pop 5
    load

  body_lem :
      (schema host port : Pushed) (path : List ℕ) (headers : List (List ℕ))
      (load : M W F (Unit {0})) (a b c : Value F) (w : W) (tw th : ℕ)
      → heap.global w (codes "wrk") ≡ table tw
      → let w' = put_fields heap w tw (module_fields schema host port path) in
        heap.get w' tw (string (codes "headers")) ≡ table th
        → body schema host port path headers load (record { stack = a ∷ b ∷ c ∷ []; heap = w })
          ≡ load (record { stack = []; heap = with_headers heap w' th headers })
  unfolding set_field
  body_lem schema host port path headers load a b c w tw th at_wrk at_headers =
      let w3 = put_fields heap w tw (url_fields schema host port) in
      let w' = put_fields heap w tw (module_fields schema host port path) in
      let st : List (Value F) = table tw ∷ a ∷ b ∷ c ∷ [] in
      rw at_wrk (
        bind_ok (set_fields (from_base 4) (wrk_fields path))
          (λ _.
            getfield (from_base 4) (codes "headers") >> (put_headers headers >> (pop 5 >> load)))
          (record { stack = st; heap = w3 })
          (set_fields_lem (from_base 4) tw (wrk_fields path) st w3 (λ v. refl))
        ∙ bind_ok (getfield (from_base 4) (codes "headers"))
            (λ _. put_headers headers >> (pop 5 >> load)) (record { stack = st; heap = w' })
            (ap (λ v. ok (tt, record { stack = v ∷ st; heap = w' })) at_headers)
        ∙ bind_ok (put_headers headers) (λ _. pop 5 >> load)
            (record { stack = table th ∷ st; heap = w' })
            (put_headers_lem th (table tw) a b c headers w'))

module _ {W F : Type 0} ⦃fl : Float F⦄ ⦃heap : Heap W F⦄ where
  -- The end of `script_create`.
  abbrev pub load_file : Option (W → Bool × List (Value F) × W) → M W F (Unit {0})
  load_file none = pure tt
  load_file (some run) = do_file run >>= λ ran. pure tt

  -- The part of `script_create` behind the metatables.
  abbrev module_part :
      (List ℕ → UrlParts) → List ℕ → List (List ℕ) → M W F (Unit {0}) → M W F (Unit {0})
  module_part parse url headers load = do
    path ← (λ s. elim (path_of url (parse url)) [ none ↦ fault | some path ↦ ok (path, s) ])
    getglobal (codes "wrk")
    push_part (push_url_part url (parse url) uf_schema)
    set_field (from_base 4) (codes "scheme")
    push_part (push_url_part url (parse url) uf_host)
    set_field (from_base 4) (codes "host")
    push_part (push_url_part url (parse url) uf_port)
    set_field (from_base 4) (codes "port")
    set_fields (from_base 4) (wrk_fields path)
    getfield (from_base 4) (codes "headers")
    put_headers headers
    pop 5
    load

  module_part_lem :
      (parse : List ℕ → UrlParts) (url : List ℕ) (headers : List (List ℕ)) (load : M W F (Unit {0}))
      (schema host port : Pushed) (path : List ℕ) (s : Machine W F)
      → push_url_part url (parse url) uf_schema ≡ some schema
      → push_url_part url (parse url) uf_host ≡ some host
      → push_url_part url (parse url) uf_port ≡ some port
      → path_of url (parse url) ≡ some path
      → module_part parse url headers load s ≡ body schema host port path headers load s
  module_part_lem parse url headers load schema host port path s ps ph pp pq = rw (pq, ps, ph, pp)

  script_create-start :
      (file : Option (W → Bool × List (Value F) × W)) (parse : List ℕ → UrlParts) (url : List ℕ)
      (headers : List (List ℕ)) (w : W)
      → heap.registry w (codes "wrk.addr") ≡ nil
      → heap.registry (with_meta heap w (codes "wrk.addr") addrlib) (codes "wrk.stats") ≡ nil
      → heap.registry
          (with_meta heap
            (with_meta heap w (codes "wrk.addr") addrlib)
            (codes "wrk.stats")
            statslib)
          (codes "wrk.thread")
        ≡ nil
      → (a b c : Value F) × (script_create file parse url headers (record { stack = []; heap = w })
          ≡ module_part parse url headers
              (load_file file)
              (record { stack = a ∷ b ∷ c ∷ []; heap = with_metas heap w }))
  unfolding script_create
  script_create-start file parse url headers w r1 r2 r3 =
      let m1 = with_meta heap w (codes "wrk.addr") addrlib in
      let m2 = with_meta heap m1 (codes "wrk.stats") statslib in
      let a : Value F = table (heap.new_table w).0 in
      let b : Value F = table (heap.new_table m1).0 in
      let c : Value F = table (heap.new_table m2).0 in
      let rest : M W F (Unit {0}) = module_part parse url headers (load_file file) in
      let meta1 : M W F (Unit {0}) = metatable (codes "wrk.addr") addrlib in
      let meta2 : M W F (Unit {0}) = metatable (codes "wrk.stats") statslib in
      let meta3 : M W F (Unit {0}) = metatable (codes "wrk.thread") threadlib in
      (
        c,
        b,
        a,
        bind_ok meta1 (λ _. meta2 >> (meta3 >> rest)) (record { stack = []; heap = w })
              (metatable_lem (codes "wrk.addr") addrlib [] w r1)
            ∙ bind_ok meta2 (λ _. meta3 >> rest) (record { stack = a ∷ []; heap = m1 })
                (metatable_lem (codes "wrk.stats") statslib (a ∷ []) m1 r2)
            ∙ bind_ok meta3 (λ _. rest) (record { stack = b ∷ a ∷ []; heap = m2 })
                (metatable_lem (codes "wrk.thread") threadlib (b ∷ a ∷ []) m2 r3),
      )

module _ {W F : Type 0} ⦃fl : Float F⦄ (heap : Heap W F) (laws : HeapLaws W F ⦃heap = heap⦄) where
  with_headers-other :
      (w : W) (t u : ℕ) (headers : List (List ℕ)) (k : Value F)
      → t ≢ u
      → heap.get (with_headers heap w t headers) u k ≡ heap.get w u k
  with_headers-other w t u [] k apart = refl
  with_headers-other w t u (h ∷ headers) k apart =
      with_headers-other (with_header heap w t (header_of h)) t u headers k apart
      ∙ one (header_of h)
    where
      one : (m : Option (List ℕ × List ℕ)) → heap.get (with_header heap w t m) u k ≡ heap.get w u k
      one none = refl
      one (some (name, value)) = laws.get-put_table w t u (string name) k (string value) apart

  -- The state has the module `wrk` and in it a table for headers, none of the three metatables, and an empty
  -- stack; the parts of the URL lie inside it. Then the module has, in the end, the scheme, the
  -- host and the port, each nil if the URL has none, the path, and the three functions; in its
  -- table of headers the headers of the command line are stored in order over what it had; and the
  -- script file is run, if there is one, on an empty stack.
  pub script_create_lem :
      (file : Option (W → Bool × List (Value F) × W)) (parse : List ℕ → UrlParts) (url : List ℕ)
      (headers : List (List ℕ)) (w : W) (tw th : ℕ) (schema host port : Pushed) (path : List ℕ)
      → heap.global w (codes "wrk") ≡ table tw
      → heap.get w tw (string (codes "headers")) ≡ table th
      → laws.Live w tw
      → laws.Live w th
      → th ≢ tw
      → heap.registry w (codes "wrk.addr") ≡ nil
      → heap.registry w (codes "wrk.stats") ≡ nil
      → heap.registry w (codes "wrk.thread") ≡ nil
      → push_url_part url (parse url) uf_schema ≡ some schema
      → push_url_part url (parse url) uf_host ≡ some host
      → push_url_part url (parse url) uf_port ≡ some port
      → path_of url (parse url) ≡ some path
      → (m : W) × ((k : Value F) → heap.get m th k ≡ heap.get w th k)
        × HasFields heap (with_headers heap m th headers) tw (module_fields schema host port path)
        × (script_create ⦃heap = heap⦄ file parse url headers (record { stack = []; heap = w })
            ≡ load_file ⦃heap = heap⦄ file
                (record { stack = []; heap = with_headers heap m th headers }))
  script_create_lem file parse url headers w tw th schema host port path at_wrk at_headers live_w
        live_h apart r1 r2 r3 ps ph pp pq =
      let name1 = codes "wrk.addr" in
      let name2 = codes "wrk.stats" in
      let name3 = codes "wrk.thread" in
      let m1 = with_meta heap w name1 addrlib in
      let m2 = with_meta heap m1 name2 statslib in
      let m3 = with_metas heap w in
      let fields = module_fields schema host port path in
      let m = put_fields heap m3 tw fields in
      let (live3, kept_w) = with_metas-Keeps heap laws w tw live_w in
      let (live3', kept_h) = with_metas-Keeps heap laws w th live_h in
      let (distinct, free) = module_fields-AreDistinct schema host port path in
      let wrk3 : heap.global m3 (codes "wrk") ≡ table tw =
        global-with_meta heap laws m2 name3 threadlib (codes "wrk")
        ∙ global-with_meta heap laws m1 name2 statslib (codes "wrk")
        ∙ global-with_meta heap laws w name1 addrlib (codes "wrk")
        ∙ at_wrk in
      let headers3 : heap.get m tw (string (codes "headers")) ≡ table th =
        put_fields-NotAmong heap laws m3 tw fields (codes "headers") free
        ∙ kept_w (string (codes "headers"))
        ∙ at_headers in
      let (a, b, c, begun) =
        script_create-start ⦃heap = heap⦄ file parse url headers w r1
          (registry-with_meta heap laws w name1 addrlib name2 (names_apart.0) ∙ r2)
          (registry-with_meta heap laws m1 name2 statslib name3 (names_apart.1)
            ∙ registry-with_meta heap laws w name1 addrlib name3 (names_apart.2)
            ∙ r3) in
      let s3 : Machine W F = record { stack = a ∷ b ∷ c ∷ []; heap = m3 } in
      (
        m,
        (λ k. put_fields-other heap laws m3 tw th fields k (λ e. apart (sym e)) ∙ kept_h k),
        HasFields-kept heap laws m (with_headers heap m th headers) tw fields
            (λ k. with_headers-other m th tw headers k apart)
            (put_fields-HasFields heap laws m3 tw fields distinct),
        begun
            ∙ module_part_lem ⦃heap = heap⦄ parse url headers (load_file ⦃heap = heap⦄ file) schema
                host port path s3 ps ph pp pq
            ∙ body_lem ⦃heap = heap⦄ schema host port path headers (load_file ⦃heap = heap⦄ file) a
                b c m3 tw th wrk3 headers3,
      )
