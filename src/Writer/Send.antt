-- ===== src/Writer/Send.antt =====
-- Which bytes the server is sent.
use mathlib.Core.List.{append-nil}
use wrk.Base.{
  Bool, true, false, suc, ℕ, ◌+◌, ◌^◌, ◌<◌, ◌≡◌, refl, ap, ◌∙◌, List, [], ◌∷◌, ◌++◌, arith,
  if◌then◌else◌, All, length, take, take-length, sum, map,
}
use wrk.Float.{Float}
use wrk.Conn.{Config, Connection, Thread, sock_write, delete_file_event, writable, ok, Out}
use wrk.Pace.{begin_catch_up, usec_to_next_send}
use wrk.Writer.{WriteInput, begin_batch, rest_of_request, write_some, socket_writeable}
use wrk.Writer.Writes.{
  handed_over, turns_off, off_lem, handed_over-ok, amount, sends, at_the_end, first, IsProgress,
  IsWhole, rest_after, length-rest, part_written, all_written, sends_rest,
}

module _ {F : Type 0} ⦃fl : Float F⦄ (cfg : Config) where
  -- The text of the request that a batch sends.
  abbrev pub text_of : WriteInput → Connection F → List ℕ
  text_of i c = if cfg.dynamic then i.script_text else c.request

  -- The connection when its first write begins.
  abbrev pub begun : WriteInput → Connection F → Connection F
  begun i c = begin_batch cfg i (usec_to_next_send i.now c).1

  begun_lem :
      (i : WriteInput) (c : Connection F)
      → IsWhole c
      → length i.script_text < 2 ^ 64
      → IsWhole (begun i c)
        × ((begun i c).request ≡ text_of i c)
        × ((begun i c).written ≡ c.written)
  unfolding begin_batch usec_to_next_send begin_catch_up
  begun_lem i c whole short = ground arith

  -- What the first write of a batch begins with.
  from_start :
      (i : WriteInput) (c : Connection F)
      → IsWhole c
      → length i.script_text < 2 ^ 64
      → c.written ≡ 0
      → IsWhole (begun i c)
        × ((begun i c).length ≡ length (text_of i c))
        × ((begun i c).written ≡ 0)
        × (rest_of_request (begun i c) ≡ text_of i c)
  from_start i c whole short none_yet =
      let (whole', text, zero_written) = begun_lem i c whole short in
      let b = begun i c in
      (
        whole',
        whole'.0 ∙ ap length text,
        zero_written ∙ none_yet,
        rw (zero_written ∙ none_yet) (take-length b.request b.length (omega arith) ∙ text),
      )

module _ {H F : Type 0} ⦃fl : Float F⦄ (cfg : Config) (fd : ℕ) where
  sends_cons :
      (i : WriteInput) (is : List WriteInput) (t : Thread H F) (c last : Connection F)
      (out : Out H F) (bytes more : List ℕ) (off : Bool) (offs : List Bool)
      → socket_writeable cfg i fd t c ≡ out
      → handed_over i out.calls ≡ bytes
      → turns_off fd out.calls ≡ off
      → sends cfg fd is out.thread out.conn ≡ (more, offs, last)
      → sends cfg fd (i ∷ is) t c ≡ (bytes ++ more, off ∷ offs, last)
  sends_cons i is t c last out bytes more off offs p q o r = rw (p, q, o, r)

  begins :
      (i : WriteInput) (t : Thread H F) (c : Connection F)
      → c.written ≡ 0
      → (usec_to_next_send i.now c).0 ≡ 0
      → socket_writeable cfg i fd t c ≡ write_some i fd t (begun cfg i c)
  unfolding socket_writeable
  begins i t c none_yet due_now = ground arith

  -- A connection with nothing written whose request is due now sends the whole request exactly once, in one
  -- write or several, when the first and the last take at least a byte, any between them do or are to be
  -- tried again, and together they take as many bytes as the request has: the bytes that the writes hand
  -- over are, in order, those of the request, which is the text of the script's `request` if that is called
  -- for every batch. The run with the last write, and no run before it, turns the watching for writing
  -- off, so that the event loop does not call the handler again; the connection is then as its batch
  -- began, with nothing written.
  pub request_sent :
      (is : List WriteInput) (j : WriteInput) (t : Thread H F) (c : Connection F)
      → IsWhole c
      → length (first is j).script_text < 2 ^ 64
      → c.written ≡ 0
      → (usec_to_next_send (first is j).now c).0 ≡ 0
      → ((first is j).result ≡ ok) × (0 < (first is j).count)
      → All IsProgress is
      → (j.result ≡ ok) × (0 < j.count)
      → sum (map amount is) + j.count ≡ length (text_of cfg (first is j) c)
      → sends cfg fd (is ++ j ∷ []) t c ≡ (
        text_of cfg (first is j) c,
        at_the_end (length is),
        record (begun cfg (first is j) c) { written = 0 },
      )
  request_sent [] j t c whole short none_yet due_now p ps (e, some_bytes) exact =
      let (whole', size, zero_written, start) = from_start cfg j c whole short none_yet in
      let b = begun cfg j c in
      let out : Out H F = record {
        thread = t;
        conn = record b { written = 0 };
        calls = sock_write (rest_of_request b) ∷ delete_file_event fd writable ∷ [];
      } in
      let all : take j.count (rest_of_request b) ≡ text_of cfg j c =
        take-length (rest_of_request b) j.count (omega (arith, length-rest b whole')) ∙ start in
      sends_cons j [] t c (record b { written = 0 }) out (text_of cfg j c) [] true []
        (begins j t c none_yet due_now ∙ all_written cfg fd j t b whole' e (omega arith))
        (handed_over-ok j (rest_of_request b) (delete_file_event fd writable ∷ []) e ∙ all)
        (off_lem fd) refl
      ∙ ap (λ (bytes : List ℕ). (bytes, true ∷ [], record b { written = 0 }))
          (append-nil (text_of cfg j c))
  request_sent (i ∷ is) j t c whole short none_yet due_now (p, q) (p', ps) (e, some_bytes) exact =
      let (whole', size, zero_written, start) = from_start cfg i c whole short none_yet in
      let b = begun cfg i c in
      let taken : amount i ≡ i.count = rw p in
      let c' = record b { written = b.written + i.count } in
      let out : Out H F = record {
        thread = t;
        conn = c';
        calls = sock_write (rest_of_request b) ∷ [];
      } in
      let rest = sends_rest cfg fd is j t c' whole' (omega arith) ps e some_bytes (omega arith) in
      sends_cons i (is ++ j ∷ []) t c (record b { written = 0 }) out
        (take i.count (rest_of_request b)) (rest_of_request c') false (at_the_end (length is))
        (begins i t c none_yet due_now ∙ part_written cfg fd i t b whole' p (omega arith) q)
        (rw p refl) refl rest
      ∙ ap (λ (bytes : List ℕ). (bytes, at_the_end (suc (length is)), record b { written = 0 }))
          (rest_after b i.count ∙ start)
