-- ===== src/Capture/Deliver.antt =====
-- What the script's `response` is given at the end of a response.
use mathlib.Core.List.{append_assoc, append-nil}
use mathlib.Core.Path.{subst}
use native.Mathlib.Nat.{le_refl}
use wrk.Base.{
  ℕ, ◌+◌, ◌≤◌, ◌<◌, ◌^◌, ◌≡◌, refl, ap, sym, ◌∙◌, none, some, List, [], ◌∷◌, ◌++◌, arith, length,
  length-append,
}
use wrk.Capture.{
  Buffer, field, value, Capture, rawset_all, buffer_append, buffer_pushlstring, header_pairs,
  buffer_reset, deliver, response_body,
}
use wrk.Capture.Grow.{HasRoom, append-HasRoom}
use wrk.Capture.Table.{lookup, last_of, lookup-rawset_all, same_option}
use wrk.Capture.Parse.{Header, encode, AreTexts, header_pairs-encode}
use wrk.Capture.Events.{
  on_body, callback, callbacks, Pieces, join, whole, each, events, all_events, wholes,
}
use wrk.Capture.Collect.{
  Between, header_Between, callbacks-append, callbacks_step, put_nul_lem, with_nul,
}

encode-append : (hs ks : List Header) → encode (hs ++ ks) ≡ encode hs ++ encode ks
encode-append [] ks = refl
encode-append ((name, text) ∷ hs) ks = rw (encode-append hs ks) (simp append_assoc)

-- All the headers of a response.
headers_Between :
    (c : Capture) (bytes : List ℕ) (p : Pieces) (ps : List Pieces)
    → Between c bytes
    → length bytes + length (encode (wholes (p ∷ ps))) ≤ 2 ^ 62
    → (c' : Capture) × (callbacks c (all_events (p ∷ ps)) ≡ some c')
      × Between c' (bytes ++ encode (wholes (p ∷ ps)))
      × (c'.state ≡ value)
      × (c'.body ≡ c.body)
headers_Between c bytes p [] b short =
    let (c', e, b', s, same) = header_Between c bytes p b short in
    (c', rw append-nil e, b', s, same)
headers_Between c bytes p (q ∷ ps) b short =
    let tail = wholes (q ∷ ps) in
    let l = ap length (encode-append (whole p ∷ []) tail) in
    let l' = length-append (encode (whole p ∷ [])) (encode tail) in
    let l'' = length-append bytes (encode (whole p ∷ [])) in
    let (c', e, b', s, same) = header_Between c bytes p b (omega arith) in
    let (c'', e', b'', s', same') =
      headers_Between c' (bytes ++ encode (whole p ∷ [])) q ps b' (omega arith) in
    (
      c'',
      callbacks-append c (events p) (all_events (q ∷ ps)) e ∙ e',
      subst (Between c'')
          (append_assoc bytes (encode (whole p ∷ [])) (encode tail)
            ∙ ap (λ t. bytes ++ t) (sym (encode-append (whole p ∷ []) tail)))
          b'',
      s',
      same' ∙ same,
    )

body_lem :
    (c : Capture) (x : List ℕ) {b : Buffer}
    → buffer_append c.body x ≡ some b
    → callback c (on_body x) ≡ some (record c { body = b })
unfolding callback response_body
body_lem c x e = ground (arith, e)

-- The body callbacks stay inside the body's buffer, and change the body alone.
bodies_lem :
    (c : Capture) (xs : List (List ℕ))
    → length c.body.written + length (join xs) ≤ 2 ^ 62
    → c.body.length < 2 ^ 63
    → (c' : Capture) × (callbacks c (each on_body xs) ≡ some c')
      × (c'.state ≡ c.state)
      × (c'.headers ≡ c.headers)
      × (c'.body.written ≡ c.body.written ++ join xs)
unfolding callbacks callback response_body
bodies_lem c [] short fits = (c, refl, refl, refl, rw append-nil)
bodies_lem c (x ∷ xs) short fits =
    let l = length-append x (join xs) in
    let (b, e, w, room, fits') = append-HasRoom c.body x (omega arith) fits in
    let l' : length b.written ≡ length c.body.written + length x =
      ap length w ∙ length-append c.body.written x in
    let (c', e', s, h, w') = bodies_lem (record c { body = b }) xs (omega arith) fits' in
    (
      c',
      callbacks_step c (on_body x) (each on_body xs) (body_lem c x e) ∙ e',
      s,
      h,
      w' ∙ ap (λ t. t ++ join xs) w ∙ append_assoc c.body.written x (join xs),
    )

deliver_lem :
    (c : Capture) (hs : List Header) (status conn_id : ℕ)
    → HasRoom c.headers
    → c.headers.written ++ 0 ∷ [] ≡ encode hs
    → AreTexts hs
    → deliver status conn_id c
      ≡ some (
        some (record {
          status = status;
          headers = rawset_all [] hs;
          text = c.body.written;
          conn_id = conn_id;
        }),
        record {
          state = field;
          headers = buffer_reset (with_nul c.headers);
          body = buffer_reset c.body;
        },
      )
unfolding deliver
deliver_lem c hs status conn_id room content texts =
    let bytes = c.headers.written ++ 0 ∷ [] in
    let read : header_pairs (length bytes) bytes ≡ some hs =
      rw content (header_pairs-encode (length (encode hs)) hs (le_refl _) texts) in
    ground (arith, put_nul_lem c.headers room, read)

-- From the state in which a response begins, the callbacks for its headers and its body never write
-- outside a buffer, however the parser cuts the texts into pieces; and what is then delivered to
-- the script is the whole body, and a table in which every name has the value of the last header with
-- that name, and no value if there is none; the buffers are ready for the next response. The headers hold
-- no NUL, they and the body each fit in 2^62 bytes, and there is at least one header.
pub deliver_collected :
    (c : Capture) (p : Pieces) (ps : List Pieces) (xs : List (List ℕ)) (status conn_id : ℕ)
    → c.state ≡ field
    → c.headers.written ≡ []
    → c.body.written ≡ []
    → c.headers.length < 2 ^ 63
    → c.body.length < 2 ^ 63
    → AreTexts (wholes (p ∷ ps))
    → length (encode (wholes (p ∷ ps))) ≤ 2 ^ 62
    → length (join xs) ≤ 2 ^ 62
    → (c' c'' : Capture) × (table : List Header) × (callbacks c
          (all_events (p ∷ ps) ++ each on_body xs)
        ≡ some c')
      × (deliver status conn_id c'
          ≡ some (
            some (record { status = status; headers = table; text = join xs; conn_id = conn_id }),
            c'',
          ))
      × ((name : List ℕ) → lookup name table ≡ last_of name (wholes (p ∷ ps)))
      × (c''.state ≡ field)
      × (c''.headers.written ≡ [])
      × (c''.body.written ≡ [])
unfolding buffer_reset
deliver_collected c p ps xs status conn_id s h w small fits texts short short_body =
    let begin : Between c [] = record {
      content = rw (s, h);
      room = λ e. absurd (cc);
      small = small;
    } in
    let (c1, e1, b1, s1, same) = headers_Between c [] p ps begin (omega arith) in
    let none_yet : length c1.body.written ≡ 0 = rw (same, w) refl in
    let (c2, e2, s2, h2, w2) = bodies_lem c1 xs (omega arith) (rw same fits) in
    let content : c1.headers.written ++ 0 ∷ [] ≡ encode (wholes (p ∷ ps)) = rw s1 at b1.content in
    let body : c2.body.written ≡ join xs =
      w2 ∙ ap (λ (b : Buffer). b.written ++ join xs) same ∙ ap (λ t. t ++ join xs) w in
    (
      c2,
      record {
        state = field;
        headers = buffer_reset (with_nul c2.headers);
        body = buffer_reset c2.body;
      },
      rawset_all [] (wholes (p ∷ ps)),
      callbacks-append c (all_events (p ∷ ps)) (each on_body xs) e1 ∙ e2,
      rw (← body) (
          deliver_lem c2 (wholes (p ∷ ps)) status conn_id (rw h2 (b1.room s1)) (rw h2 content)
            texts),
      (λ name.
          lookup-rawset_all name [] (wholes (p ∷ ps))
          ∙ same_option (last_of name (wholes (p ∷ ps)))),
      refl,
      refl,
      refl,
    )

-- If a response had no header, but an earlier one on the connection had, the loop looks for a second text
-- behind the bytes that were written.
deliver_no_headers :
    (c : Capture) (status conn_id : ℕ)
    → c.headers.written ≡ []
    → 0 < c.headers.length
    → deliver status conn_id c ≡ none
unfolding deliver header_pairs buffer_pushlstring
deliver_no_headers c status conn_id h room = ground arith
