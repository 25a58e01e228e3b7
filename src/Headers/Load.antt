-- ===== src/Headers/Load.antt =====
-- store and verifyAll of electrumx/headers.go on a headers file of unknown contents: what a
-- successful load has established.
use go_electrum_client.Prelude.{
  ℕ, zero, suc, ◌*◌, ◌≡◌, refl, sym, ap, ◌∙◌, inl, inr, none, some, List, [], ◌∷◌, ◌++◌, arith,
  Option-cases, length, length-append,
}
use mathlib.Core.List.{append_assoc, append-nil}
use go_electrum_client.Prelude.Int.{ℤ, pos, ◌+ℤ◌, int_laws}
use go_electrum_client.Prelude.Results.{ok, err, err_ne_ok}
use go_electrum_client.Headers.{BlockHeader, Deserialize, Headers, bad_header}
use go_electrum_client.Headers.Maps.{put_hdr, store_loop}
use go_electrum_client.Headers.Chain.{Entry, file_of, header_of}
use go_electrum_client.Headers.Restart.{put_chain}

-- A deserializer that takes exactly `size` bytes off the buffer, and reads nothing else.
pub record TakesSize (size : ℕ) (d : Deserialize) : Type 0 where
  pub split :
      (buf rest : List ℕ) (b : BlockHeader)
      → d buf ≡ some (b, rest)
      → (raw : List ℕ) × (buf ≡ raw ++ rest) × (length raw ≡ size) × (header_of d raw ≡ some b)

abbrev pub Decoded : ℕ → Deserialize → List Entry → Type 0
Decoded size d [] = Unit {0}
Decoded size d (e ∷ c) =
    (length e.raw ≡ size) × (header_of d e.raw ≡ some e.header) × Decoded size d c

Decoded-append :
    (size : ℕ) (d : Deserialize) (c : List Entry) (e : Entry)
    → Decoded size d c
    → length e.raw ≡ size
    → header_of d e.raw ≡ some e.header
    → Decoded size d (c ++ e ∷ [])
Decoded-append size d [] e h s r = (s, r, tt)
Decoded-append size d (x ∷ c) e h s r = (h.0, h.1, Decoded-append size d c e h.2 s r)

file_of-append : (c : List Entry) (e : Entry) → file_of (c ++ e ∷ []) ≡ e.raw ++ file_of c
unfolding file_of
file_of-append [] e = sym (append-nil e.raw)
file_of-append (x ∷ c) e =
    ap (λ l. l ++ x.raw) (file_of-append c e) ∙ append_assoc e.raw (file_of c) x.raw

-- The oldest entry of a chain goes into the maps first.
put_chain-append :
    (h : Headers) (at : ℤ) (c : List Entry) (e : Entry)
    → put_chain h at (c ++ e ∷ []) ≡ put_chain (put_hdr h at e.header) (at +ℤ pos 1) c
unfolding put_chain
put_chain-append h at [] e = ap (λ j. put_hdr h j e.header) (omega int_laws)
put_chain-append h at (x ∷ c) e =
    let here : at +ℤ pos (length (c ++ e ∷ [])) ≡ at +ℤ pos 1 +ℤ pos (length c) =
      omega (int_laws, length-append c (e ∷ [])) in
    ap (λ (g : Headers). put_hdr g (at +ℤ pos (length (c ++ e ∷ []))) x.header)
      (put_chain-append h at c e)
    ∙ ap (λ j. put_hdr (put_chain (put_hdr h at e.header) (at +ℤ pos 1) c) j x.header) here

abbrev pub Loads : ℕ → ℕ → Headers → Headers → ℤ → List ℕ → Type 0
Loads size n h g at buf =
    (c : List Entry) × (length c ≡ n)
    × (buf ≡ file_of c)
    × Decoded size h.deserialize c
    × (g ≡ put_chain h at c)

Loads-add :
    (size n : ℕ) (h g : Headers) (at : ℤ) (buf rest raw : List ℕ) (b : BlockHeader)
    → buf ≡ raw ++ rest
    → length raw ≡ size
    → header_of h.deserialize raw ≡ some b
    → Loads size n (put_hdr h at b) g (at +ℤ pos 1) rest
    → Loads size (suc n) h g at buf
unfolding put_hdr
Loads-add size n h g at buf rest raw b cut len reads (c, num, bytes, decoded, maps) =
    let e : Entry = record { raw = raw; header = b } in
    (
      c ++ e ∷ [],
      omega (arith, length-append c (e ∷ []), num),
      cut ∙ ap (λ l. raw ++ l) bytes ∙ sym (file_of-append c e),
      Decoded-append size h.deserialize c e decoded len reads,
      maps ∙ sym (put_chain-append h at c e),
    )

store_loop-step :
    (n : ℕ) (h : Headers) (at : ℤ) (buf rest : List ℕ) (b : BlockHeader)
    → h.deserialize buf ≡ some (b, rest)
    → store_loop (suc n) h at buf ≡ store_loop n (put_hdr h at b) (at +ℤ pos 1) rest
unfolding store_loop
store_loop-step n h at buf rest b e = rw (e, store_loop) refl

store_loop-gone :
    (n : ℕ) (h : Headers) (at : ℤ) (buf : List ℕ)
    → h.deserialize buf ≡ none
    → store_loop (suc n) h at buf ≡ (h, err bad_header)
unfolding store_loop
store_loop-gone n h at buf e = rw (e, store_loop) refl

-- A loop that ends well has read one entry after another.
pub store_loop-Decoded :
    (size n : ℕ) (h g : Headers) (at : ℤ) (buf : List ℕ)
    → TakesSize size h.deserialize
    → length buf ≡ n * size
    → store_loop n h at buf ≡ (g, ok tt)
    → Loads size n h g at buf
unfolding store_loop file_of put_chain put_hdr
store_loop-Decoded size zero h g at [] takes len run = ([], refl, refl, tt, sym (ap (λ p. p.0) run))
store_loop-Decoded size zero h g at (x ∷ buf) takes len run = absurd (omega arith)
store_loop-Decoded size (suc n) h g at buf takes len run = elim (Option-cases (h.deserialize buf)) [
  | inl gone ↦ absurd (err_ne_ok (ap (λ p. p.1) (sym (store_loop-gone n h at buf gone) ∙ run)))
  | inr ((b, rest), e) ↦
      let (raw, cut, sized, reads) = takes.split buf rest b e in
      Loads-add size n h g at buf rest raw b cut sized reads (
        store_loop-Decoded size n (put_hdr h at b) g (at +ℤ pos 1) rest takes
          (omega (arith, ap length cut, length-append raw rest))
          (sym (store_loop-step n h at buf rest b e) ∙ run))
]
