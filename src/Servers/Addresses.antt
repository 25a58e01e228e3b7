-- ===== src/Servers/Addresses.antt =====
-- The addresses in a list of servers, for electrumx/network_servers.go.
use go_electrum_client.Prelude.{
  ◌≡◌, ◌≢◌, ◌↔◌, ◌⊎◌, ◌∙◌, refl, sym, subst, inl, inr, true, false, List, [], ◌∷◌, ◌++◌, arith,
  Bool-cases,
}
use go_electrum_client.Prelude.Bytes.{bytes_eq, bytes_eq_iff}
use go_electrum_client.Servers.{Text, ServerAddr, matched_known, tmp_add, without_address}

-- Some server of the list has the address.
abbrev pub HasAddress : Text → List ServerAddr → Type 0
HasAddress a [] = ⊥
HasAddress a (s ∷ rest) = (s.address ≡ a) ⊎ HasAddress a rest

-- No address stands twice in the list.
abbrev pub NoTwice : List ServerAddr → Type 0
NoTwice [] = Unit {0}
NoTwice (s ∷ rest) = (¬ HasAddress s.address rest) × NoTwice rest

false_ne_true : false ≢ true
false_ne_true e = cc

HasAddress-matched_known :
    (a : Text) (l : List ServerAddr) → matched_known a l ≡ true → HasAddress a l
unfolding matched_known
HasAddress-matched_known a [] e = absurd cc
HasAddress-matched_known a (s ∷ rest) e = elim (Bool-cases (bytes_eq s.address a)) [
  | inl same ↦ inl ((bytes_eq_iff s.address a).0 same)
  | inr other ↦ inr (HasAddress-matched_known a rest (ground arith))
]

matched_known_of_HasAddress :
    (a : Text) (l : List ServerAddr) → HasAddress a l → matched_known a l ≡ true
unfolding matched_known
matched_known_of_HasAddress a [] h = absurd h
matched_known_of_HasAddress a (s ∷ rest) (inl same) =
    ground (arith, (bytes_eq_iff s.address a).1 same)
matched_known_of_HasAddress a (s ∷ rest) (inr more) =
    ground (arith, matched_known_of_HasAddress a rest more)

pub matched_known_iff :
    (a : Text) (l : List ServerAddr) → (matched_known a l ≡ true) ↔ HasAddress a l
matched_known_iff a l = (HasAddress-matched_known a l, matched_known_of_HasAddress a l)

pub HasAddress-append :
    (a : Text) (xs ys : List ServerAddr)
    → HasAddress a (xs ++ ys) ↔ (HasAddress a xs ⊎ HasAddress a ys)
HasAddress-append a [] ys = grind arith
HasAddress-append a (x ∷ xs) ys = let more = HasAddress-append a xs ys in grind arith

module _ (a : Text) (x : ServerAddr) (known added new : List ServerAddr) where
  HasAddress-skip :
      HasAddress a added ↔ (HasAddress a new × (¬ HasAddress a known))
      → matched_known x.address known ≡ true
      → HasAddress a added ↔ (((x.address ≡ a) ⊎ HasAddress a new) × (¬ HasAddress a known))
  HasAddress-skip more got =
      let held : HasAddress x.address known = (matched_known_iff x.address known).0 got in
      (
        λ h. let (m, unknown) = more.0 h in (inr m, unknown),
        λ p. more.1 (
          elim p.0 [ inl e ↦ absurd (p.1 (subst (λ z. HasAddress z known) e held)) | inr m ↦ m ],
          p.1,
        ),
      )

  HasAddress-take :
      HasAddress a added ↔ (HasAddress a new × (¬ HasAddress a known))
      → matched_known x.address known ≡ false
      → ((x.address ≡ a) ⊎ HasAddress a added)
        ↔ (((x.address ≡ a) ⊎ HasAddress a new) × (¬ HasAddress a known))
  HasAddress-take more fresh =
      let missing : ¬ HasAddress x.address known =
        λ h. false_ne_true (sym fresh ∙ (matched_known_iff x.address known).1 h) in
      (
        λ h. elim h [
          | inl e ↦ (inl e, λ held. missing (subst (λ z. HasAddress z known) (sym e) held))
          | inr m ↦ let (n, unknown) = more.0 m in (inr n, unknown)
        ],
        λ p. elim p.0 [ inl e ↦ inl e | inr m ↦ inr (more.1 (m, p.1)) ],
      )

-- What tmpAdd holds: the new addresses that are not known.
pub HasAddress-tmp_add :
    (a : Text) (known new : List ServerAddr)
    → HasAddress a (tmp_add known new) ↔ (HasAddress a new × (¬ HasAddress a known))
unfolding tmp_add
HasAddress-tmp_add a known [] = grind arith
HasAddress-tmp_add a known (x ∷ new) =
    let more = HasAddress-tmp_add a known new in
    elim (Bool-cases (matched_known x.address known)) [
      | inl got ↦ rw (got, HasAddress) (HasAddress-skip a x known (tmp_add known new) new more got)
      | inr fresh ↦
          rw (fresh, HasAddress) (HasAddress-take a x known (tmp_add known new) new more fresh)
    ]

-- Neither an update nor a removal puts an address twice.
pub tmp_add-NoTwice : (known new : List ServerAddr) → NoTwice new → NoTwice (tmp_add known new)
unfolding tmp_add
tmp_add-NoTwice known [] n = tt
tmp_add-NoTwice known (x ∷ new) n = elim (Bool-cases (matched_known x.address known)) [
  | inl got ↦ rw (got, NoTwice) (tmp_add-NoTwice known new n.1)
  | inr fresh ↦
      rw (fresh, NoTwice)
        (λ h. n.0 ((HasAddress-tmp_add x.address known new).0 h).0, tmp_add-NoTwice known new n.1)
]

pub NoTwice-append :
    (xs ys : List ServerAddr)
    → NoTwice xs
    → NoTwice ys
    → ((a : Text) → HasAddress a ys → ¬ HasAddress a xs)
    → NoTwice (xs ++ ys)
NoTwice-append [] ys n m apart = m
NoTwice-append (x ∷ xs) ys n m apart = (
  λ h. elim ((HasAddress-append x.address xs ys).0 h) [
    | inl left ↦ n.0 left
    | inr right ↦ apart x.address right (inl refl)
  ],
  NoTwice-append xs ys n.1 m (λ a h g. apart a h (inr g)),
)

pub HasAddress-without_address :
    (a b : Text) (l : List ServerAddr)
    → HasAddress a (without_address b l) ↔ (HasAddress a l × (a ≢ b))
unfolding without_address
HasAddress-without_address a b [] = grind arith
HasAddress-without_address a b (x ∷ l) =
    let more = HasAddress-without_address a b l in
    elim (Bool-cases (bytes_eq x.address b)) [
      | inl gone ↦
          let same : x.address ≡ b = (bytes_eq_iff x.address b).0 gone in
          rw (gone, HasAddress)
            (
              λ h. let (m, ne) = more.0 h in (inr m, ne),
              λ p. more.1 (elim p.0 [ inl e ↦ absurd (p.1 (sym e ∙ same)) | inr m ↦ m ], p.1),
            )
      | inr kept ↦
          let other : x.address ≢ b =
            λ e. false_ne_true (sym kept ∙ (bytes_eq_iff x.address b).1 e) in
          rw (kept, HasAddress)
            (
              λ h. elim h [
                | inl e ↦ (inl e, λ q. other (e ∙ q))
                | inr m ↦ let (n, ne) = more.0 m in (inr n, ne)
              ],
              λ p. elim p.0 [ inl e ↦ inl e | inr m ↦ inr (more.1 (m, p.1)) ],
            )
    ]

pub dec_HasAddress : (a : Text) (l : List ServerAddr) → Dec (HasAddress a l)
dec_HasAddress a l = elim (Bool-cases (matched_known a l)) [
  | inl got ↦ yes ((matched_known_iff a l).0 got)
  | inr fresh ↦ no (λ h. false_ne_true (sym fresh ∙ (matched_known_iff a l).1 h))
]
