-- ===== src/Writer/Writes.antt =====
-- Which bytes runs of the handler hand over.
use mathlib.Core.List.{append-nil}
use wrk.Base.{
  Bool, true, false, ◌==◌, ◌&&◌, ◌||◌, zero, suc, ℕ, ◌+◌, ◌-◌, ◌^◌, ◌<◌, ◌≡◌, refl, ap, sym, ◌∙◌,
  List, [], ◌∷◌, ◌++◌, arith, All, length, take, drop-drop, take-append-drop, take-length,
  length-drop, sum, map, ◌⊎◌, inl, inr,
}
use wrk.Float.{Float}
use wrk.Conn.{
  Config, Connection, Thread, Call, Interest, sock_write, delete_file_event, readable, writable,
  both, ok, error, retry,
}
use wrk.Writer.{WriteInput, rest_of_request, write_some, socket_writeable}

-- What a call of `sock.write` hands over to the system.
abbrev pub handed_over : WriteInput → List Call → List ℕ
handed_over i [] = []
handed_over i (call ∷ calls) = elim i.result [
  | ok ↦ elim call [ sock_write bytes ↦ take i.count bytes | _ ↦ [] ]
  | error ↦ []
  | retry ↦ []
]

-- Whether the interest takes in writing.
abbrev pub is_writable : Interest → Bool
is_writable readable = false
is_writable writable = true
is_writable both = true

-- Whether one of the calls turns the watching for writing off.
abbrev pub turns_off : ℕ → List Call → Bool
turns_off fd [] = false
turns_off fd (call ∷ calls) =
    let rest = turns_off fd calls in
    elim call [ delete_file_event k mask ↦ (k == fd && is_writable mask) || rest | _ ↦ rest ]

pub off_lem : (fd : ℕ) → turns_off fd (delete_file_event fd writable ∷ []) ≡ true
off_lem fd = ground arith

pub handed_over-ok :
    (i : WriteInput) (bytes : List ℕ) (calls : List Call)
    → i.result ≡ ok
    → handed_over i (sock_write bytes ∷ calls) ≡ take i.count bytes
handed_over-ok i bytes calls e = rw e refl

-- How many bytes a write takes.
abbrev pub amount : WriteInput → ℕ
amount i = elim i.result [ ok ↦ i.count | error ↦ 0 | retry ↦ 0 ]

module _ {H F : Type 0} ⦃fl : Float F⦄ (cfg : Config) (fd : ℕ) where
  -- The bytes handed over by runs of the handler one after the other, which of the runs turn the watching
  -- for writing off, and the connection after them.
  abbrev pub sends : List WriteInput → Thread H F → Connection F → List ℕ × List Bool × Connection F
  sends [] t c = ([], [], c)
  sends (i ∷ is) t c =
      let out = socket_writeable cfg i fd t c in
      let (bytes, offs, last) = sends is out.thread out.conn in
      (handed_over i out.calls ++ bytes, turns_off fd out.calls ∷ offs, last)

-- Only the last of the runs, of which `n` come before it.
abbrev pub at_the_end : ℕ → List Bool
at_the_end zero = true ∷ []
at_the_end (suc n) = false ∷ at_the_end n

-- The first of the runs.
abbrev pub first : List WriteInput → WriteInput → WriteInput
first [] j = j
first (i ∷ is) j = i

-- A write takes at least a byte, or is to be tried again.
abbrev pub IsProgress : WriteInput → Type 0
IsProgress i = ((i.result ≡ ok) × (0 < i.count)) ⊎ (i.result ≡ retry)

module _ {F : Type 0} where
  -- The text of the request is as long as it says.
  abbrev pub IsWhole : Connection F → Type 0
  IsWhole c = (c.length ≡ length c.request) × (c.length < 2 ^ 64)

  pub rest_after :
      (c : Connection F) (n : ℕ)
      → take n (rest_of_request c) ++ rest_of_request (record c { written = c.written + n })
        ≡ rest_of_request c
  rest_after c n =
      ap (λ t. take n (rest_of_request c) ++ t)
        (sym (drop-drop n c.written (take c.length c.request)))
      ∙ take-append-drop n (rest_of_request c)

  pub length-rest :
      (c : Connection F) → IsWhole c → length (rest_of_request c) ≡ c.length - c.written
  length-rest c (whole, small) =
      length-drop c.written (take c.length c.request)
      ∙ ap (λ xs. length xs - c.written) (take-length c.request c.length (omega arith))
      ∙ ap (λ n. n - c.written) (sym whole)

module _ {H F : Type 0} ⦃fl : Float F⦄ (cfg : Config) (fd : ℕ) where
  -- Within a request.
  pub part_written :
      (i : WriteInput) (t : Thread H F) (c : Connection F)
      → IsWhole c
      → i.result ≡ ok
      → c.written + i.count < c.length
      → 0 < i.count
      → write_some i fd t c ≡ record {
        thread = t;
        conn = record c { written = c.written + i.count };
        calls = sock_write (rest_of_request c) ∷ [];
      }
  unfolding write_some
  part_written i t c whole e more some_bytes = ground arith

  pub all_written :
      (i : WriteInput) (t : Thread H F) (c : Connection F)
      → IsWhole c
      → i.result ≡ ok
      → c.written + i.count ≡ c.length
      → write_some i fd t c ≡ record {
        thread = t;
        conn = record c { written = 0 };
        calls = sock_write (rest_of_request c) ∷ delete_file_event fd writable ∷ [];
      }
  unfolding write_some
  all_written i t c whole e exact = ground arith

  goes_on :
      (i : WriteInput) (t : Thread H F) (c : Connection F)
      → 0 < c.written
      → socket_writeable cfg i fd t c ≡ write_some i fd t c
  unfolding socket_writeable
  goes_on i t c pos = ground arith

  tried_again :
      (i : WriteInput) (t : Thread H F) (c : Connection F)
      → i.result ≡ retry
      → write_some i fd t c
        ≡ record { thread = t; conn = c; calls = sock_write (rest_of_request c) ∷ [] }
  unfolding write_some
  tried_again i t c e = ground arith

  finishes :
      (j : WriteInput) (t : Thread H F) (c : Connection F)
      → IsWhole c
      → j.result ≡ ok
      → c.written + j.count ≡ c.length
      → socket_writeable cfg j fd t c ≡ write_some j fd t c
      → sends cfg fd (j ∷ []) t c ≡ (rest_of_request c, true ∷ [], record c { written = 0 })
  finishes j t c whole e exact same =
      let all : take j.count (rest_of_request c) ≡ rest_of_request c =
        take-length (rest_of_request c) j.count (omega (arith, length-rest c whole)) in
      rw
        (
          same,
          all_written j t c whole e exact,
          handed_over-ok j (rest_of_request c) (delete_file_event fd writable ∷ []) e,
          all,
          append-nil,
          off_lem fd,
        )
        refl

  -- The request from what is written of it on, over one write or several, some to be tried again.
  pub sends_rest :
      (is : List WriteInput) (j : WriteInput) (t : Thread H F) (c : Connection F)
      → IsWhole c
      → 0 < c.written
      → All IsProgress is
      → j.result ≡ ok
      → 0 < j.count
      → c.written + sum (map amount is) + j.count ≡ c.length
      → sends cfg fd (is ++ j ∷ []) t c
        ≡ (rest_of_request c, at_the_end (length is), record c { written = 0 })
  sends_rest [] j t c whole pos ps e some_bytes exact =
      finishes j t c whole e (omega arith) (goes_on j t c pos)
  sends_rest (i ∷ is) j t c whole pos (inl (p, q), ps) e some_bytes exact =
      let taken : amount i ≡ i.count = rw p in
      let c' = record c { written = c.written + i.count } in
      rw (
        goes_on i t c pos,
        part_written i t c whole p (omega arith) q,
        p,
        sends_rest is j t c' whole (omega arith) ps e some_bytes (omega arith),
        rest_after c i.count,
      )
  sends_rest (i ∷ is) j t c whole pos (inr p, ps) e some_bytes exact =
      let taken : amount i ≡ 0 = rw p in
      rw (
        goes_on i t c pos,
        tried_again i t c p,
        p,
        sends_rest is j t c whole pos ps e some_bytes (omega arith),
      )
