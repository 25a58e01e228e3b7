-- ===== src/Servers/Update.antt =====
-- updateNetworkServers and updateStoredServers of electrumx/network_servers.go, against the set of
-- addresses.
use go_electrum_client.Prelude.{
  ℕ, ◌≡◌, ◌↔◌, ◌⊎◌, ◌∙◌, refl, sym, ap, ◌≢◌, inl, inr, true, false, Option, none, some, List, [],
  ◌∷◌, ◌++◌, ◌==◌, ==_iff, arith, Bool-cases, length,
}
use go_electrum_client.Prelude.Results.{Result, ok, panic, Result-cases, panic_ne_ok}
use go_electrum_client.Servers.{
  Text, ServerAddr, AddrFile, FileError, holds, no_bytes, garbled, FileCalls, read_server_addr_file,
  write_server_addr_file, tmp_add, update_network_servers, update_stored_servers, present,
  all_present, add_stored, matched_known,
}
use go_electrum_client.Servers.Addresses.{
  HasAddress, NoTwice, HasAddress-append, HasAddress-tmp_add, tmp_add-NoTwice, NoTwice-append,
  dec_HasAddress, matched_known_iff,
}

-- The servers of `new` whose address is not known, in their order; one that comes in twice is
-- there twice.
pub data Missing (known : List ServerAddr) : List ServerAddr → List ServerAddr → Type 0 where
  none_in : Missing known [] []
  known_in :
      {x : ServerAddr} {new rest : List ServerAddr}
      → HasAddress x.address known
      → Missing known new rest
      → Missing known (x ∷ new) rest
  new_in :
      {x : ServerAddr} {new rest : List ServerAddr}
      → ¬ HasAddress x.address known
      → Missing known new rest
      → Missing known (x ∷ new) (x ∷ rest)

-- The list is the known servers and then exactly the missing ones; its addresses are those of both.
pub record Adds (known new l : List ServerAddr) : Type 0 where
  pub in_front : (rest : List ServerAddr) × (l ≡ known ++ rest) × Missing known new rest
  pub addresses : (a : Text) → HasAddress a l ↔ (HasAddress a known ⊎ HasAddress a new)

tmp_add-Missing : (known new : List ServerAddr) → Missing known new (tmp_add known new)
unfolding tmp_add
tmp_add-Missing known [] = none_in
tmp_add-Missing known (x ∷ new) = elim (Bool-cases (matched_known x.address known)) [
  | inl got ↦
      rw got (known_in ((matched_known_iff x.address known).0 got) (tmp_add-Missing known new))
  | inr fresh ↦ rw fresh (
      new_in (λ h. false_ne_true (sym fresh ∙ (matched_known_iff x.address known).1 h))
        (tmp_add-Missing known new))
]
  where
    false_ne_true : false ≢ true
    false_ne_true e = cc

all_Missing : (new : List ServerAddr) → Missing [] new new
all_Missing [] = none_in
all_Missing (x ∷ new) = new_in (λ h. h) (all_Missing new)

pub append-Adds : (known new : List ServerAddr) → Adds known new (known ++ tmp_add known new)
append-Adds known new = record {
  in_front = (tmp_add known new, refl, tmp_add-Missing known new);
  addresses = λ a. (
    λ h. elim ((HasAddress-append a known (tmp_add known new)).0 h) [
      | inl old ↦ inl old
      | inr fresh ↦ inr ((HasAddress-tmp_add a known new).0 fresh).0
    ],
    λ h. (HasAddress-append a known (tmp_add known new)).1 (elim h [
      | inl old ↦ inl old
      | inr n ↦ elim (dec_HasAddress a known) [
        | yes old ↦ inl old
        | no fresh ↦ inr ((HasAddress-tmp_add a known new).1 (n, fresh))
      ]
    ]),
  );
}

empty-Adds : (new : List ServerAddr) → Adds [] new new
empty-Adds new = record {
  in_front = (new, refl, all_Missing new);
  addresses = λ a. (inr, λ h. elim h [ inl none_known ↦ absurd none_known | inr n ↦ n ]);
}

-- An update of the known servers keeps them in front, in their order, and then has exactly those of
-- the servers that come in whose address is not known, in their order (one that comes in twice is
-- added twice); the addresses are then the known ones and those that come in.
pub update_network_servers-Adds :
    (known new : List ServerAddr) → Adds known new (update_network_servers known new)
unfolding update_network_servers
update_network_servers-Adds [] new = empty-Adds new
update_network_servers-Adds (k ∷ known) new = append-Adds (k ∷ known) new

-- An update puts no address twice where neither the known servers nor those that come in have one
-- twice.
pub update_network_servers-NoTwice :
    (known new : List ServerAddr)
    → NoTwice known
    → NoTwice new
    → NoTwice (update_network_servers known new)
unfolding update_network_servers
update_network_servers-NoTwice [] new k n = n
update_network_servers-NoTwice (s ∷ known) new k n =
    NoTwice-append (s ∷ known) (tmp_add (s ∷ known) new) k (tmp_add-NoTwice (s ∷ known) new n)
      (λ a h. ((HasAddress-tmp_add a (s ∷ known) new).0 h).1)

-- What has been written without an error is read back, where the file can be read, as the same
-- servers and their number.
pub read-write_server_addr_file :
    (c : FileCalls) (f g : AddrFile) (servers : List (Option ServerAddr))
    → c.can_read ≡ true
    → write_server_addr_file c f servers ≡ (g, ok tt)
    → read_server_addr_file c g ≡ ok (servers, length servers)
unfolding read_server_addr_file write_server_addr_file
read-write_server_addr_file c f g [] can e = ground arith
read-write_server_addr_file c f g (s ∷ servers) can e = ground arith

pub read_server_addr_file_count :
    (c : FileCalls) (f : AddrFile) (stored : List (Option ServerAddr)) (n : ℕ)
    → read_server_addr_file c f ≡ ok (stored, n)
    → (read_server_addr_file c f ≡ ok (stored, length stored))
      × (length stored ≡ n)
      × (c.can_read ≡ true)
unfolding read_server_addr_file
read_server_addr_file_count c no_bytes stored n e = ground arith
read_server_addr_file_count c (holds l) stored n e = ground arith
read_server_addr_file_count c garbled stored n e = ground arith

pub data HasNull : List (Option ServerAddr) → Type 0 where
  here : {l : List (Option ServerAddr)} → HasNull (none ∷ l)
  later : {s : ServerAddr} {l : List (Option ServerAddr)} → HasNull l → HasNull (some s ∷ l)

-- A list has a null or is one of servers.
pub all_present_cases :
    (l : List (Option ServerAddr))
    → ((m : List ServerAddr) × (all_present l ≡ some m) × (l ≡ present m))
      ⊎ ((all_present l ≡ none) × HasNull l)
unfolding all_present
all_present_cases [] = inl ([], refl, refl)
all_present_cases (none ∷ l) = inr (refl, here)
all_present_cases (some s ∷ l) = elim (all_present_cases l) [
  | inl (m, q, e) ↦ inl (s ∷ m, rw q refl, ap (λ r. some s ∷ r) e)
  | inr (q, h) ↦ inr (rw q refl, later h)
]

nil_of_length : (l : List (Option ServerAddr)) → length l ≡ 0 → l ≡ []
nil_of_length [] e = refl
nil_of_length (x ∷ l) e = absurd (omega arith)

-- The file after an update: the stored servers and the missing ones, or with nothing coming in what
-- it was.
abbrev pub Stores : FileCalls → AddrFile → AddrFile → List ServerAddr → Type 0
Stores c f g new =
    (raw : List (Option ServerAddr)) × (read_server_addr_file c f ≡ ok (raw, length raw))
    × (((new ≡ []) × (read_server_addr_file c g ≡ ok (raw, length raw)))
        ⊎ ((stored : List ServerAddr) × (l : List ServerAddr) × (raw ≡ present stored)
            × (read_server_addr_file c g ≡ ok (present l, length (present l)))
            × Adds stored new l))

add_stored-Stores :
    (c : FileCalls) (f g : AddrFile) (raw : List (Option ServerAddr)) (new : List ServerAddr)
    → read_server_addr_file c f ≡ ok (raw, length raw)
    → c.can_read ≡ true
    → add_stored c f raw new ≡ (g, ok tt)
    → Stores c f g new
unfolding add_stored
add_stored-Stores c f g raw [] read can e =
    (raw, read, inl (refl, read-write_server_addr_file c f g raw can e))
add_stored-Stores c f g raw (s ∷ new) read can e = elim (all_present_cases raw) [
  | inl (m, q, same) ↦
      let l : List ServerAddr = m ++ tmp_add m (s ∷ new) in
      let run : write_server_addr_file c f (present l) ≡ (g, ok tt) = rw (q, add_stored) at e in
      (
        raw,
        read,
        inr (
          m,
          l,
          same,
          read-write_server_addr_file c f g (present l) can run,
          append-Adds m (s ∷ new),
        ),
      )
  | inr (q, h) ↦
      let run : (f, panic) ≡ (g, ok tt) = rw (q, add_stored) at e in
      absurd (panic_ne_ok (ap (λ (p : AddrFile × Result FileError (Unit {0})). p.1) run))
]

-- An update of the file that ends well was of a file that could be read. With no server coming in
-- the file is then read as before. Else it held no null, and it is read as the stored servers, in
-- front, with exactly those of the incoming servers after them whose address was not stored (one
-- that comes in twice is added twice).
pub update_stored_servers-Stores :
    (c : FileCalls) (f g : AddrFile) (new : List ServerAddr)
    → update_stored_servers c f new ≡ (g, ok tt)
    → Stores c f g new
unfolding update_stored_servers
update_stored_servers-Stores c f g new e = elim (Result-cases (read_server_addr_file c f)) [
  | inl ((raw, n), q) ↦
      let (read, counted, can) = read_server_addr_file_count c f raw n q in
      elim (Bool-cases (n == 0)) [
        | inl empty ↦
            let run : write_server_addr_file c f (present new) ≡ (g, ok tt) =
              rw (q, update_stored_servers, empty) at e in
            (
              raw,
              read,
              inr (
                [],
                new,
                nil_of_length raw (counted ∙ (==_iff n 0).0 empty),
                read-write_server_addr_file c f g (present new) can run,
                empty-Adds new,
              ),
            )
        | inr some_stored ↦
            add_stored-Stores c f g raw new read can
              (rw (q, update_stored_servers, some_stored) at e)
      ]
  | inr (inl (x, bad)) ↦ absurd (ground (arith, bad))
  | inr (inr bad) ↦ absurd (ground (arith, bad))
]
