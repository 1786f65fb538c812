-- ===== src/Pdo/Bounds.antt =====
-- The mapping tables that sizeOfPDO of soes/esc_coe.c fills.
use soes.Base.{
  ℕ, zero, suc, ◌+◌, ◌%◌, ◌≤◌, ◌≡◌, refl, ◌||◌, Option, none, some, List, [], ◌∷◌, ◌++◌, length,
  arith, ◌==◌, if-elim, u32,
}
use soes.Base.Memory.{Mem}
use soes.Slave.{Entry, Object, Mapping}
use soes.Pdo.{
  Filling, filled, invalid, Layout, PdoSize, mapped_entry, add_mapping, add_pdo, add_pdos,
  pdo_result, size_of_pdo, fetch8, fetch16, fetch32, findobject, object_at, entry_at, rx_pdo_objidx,
  tx_pdo_objidx,
}

-- A layout that fits into a table of `k` mappings, also where an invalid mapping ended it.
abbrev Fits : ℕ → Filling → Type 0
Fits k (invalid l) = length l.maps ≤ k
Fits k (filled l) = length l.maps ≤ k

-- `*nmappings` is at most the size of the table.
abbrev pub IsBounded : ℕ → Option ℕ → Type 0
IsBounded k none = Unit {0}
IsBounded k (some n) = n ≤ k

length-snoc : (xs : List Mapping) (x : Mapping) → length (xs ++ (x ∷ [])) ≡ length xs + 1
length-snoc [] x = refl
length-snoc (y ∷ xs) x = ground (arith, length-snoc xs x)

add_mapping-Fits :
    (k : ℕ) (objects : List Object) (value : ℕ) (l : Layout)
    → length l.maps ≤ k
    → Fits k (add_mapping k objects value l)
unfolding add_mapping
add_mapping-Fits k objects value l h =
    if-elim (Fits k) (k == 0) (λ _. h)
      (λ _.
        if-elim (Fits k) (length l.maps == k) (λ _. h)
          (λ p. stored (ground arith) (mapped_entry objects value)))
  where
    stored :
        suc (length l.maps) ≤ k
        → (found : Option (Option (ℕ × ℕ)))
        → Fits k (elim found [
          | none ↦ invalid l
          | some obj ↦ filled (record {
            offset = u32 (l.offset + value % 256);
            maps = l.maps ++ (record { obj = obj; offset = l.offset } ∷ []);
          })
        ])
    stored small none = h
    stored small (some obj) =
        ground (arith, length-snoc l.maps (record { obj = obj; offset = l.offset }))

then-Fits :
    (k : ℕ) (m : Filling) (f : Layout → Filling)
    → Fits k m
    → ((l : Layout) → length l.maps ≤ k → Fits k (f l))
    → Fits k (elim m [ invalid l ↦ invalid l | filled l ↦ f l ])
then-Fits k (invalid l) f h g = h
then-Fits k (filled l) f h g = g l h

add_pdo-Fits :
    (k : ℕ) (ram : Mem) (objects : List Object) (objd : List Entry) (rounds c : ℕ) (l : Layout)
    → length l.maps ≤ k
    → Fits k (add_pdo k ram objects objd rounds c l)
unfolding add_pdo
add_pdo-Fits k ram objects objd zero c l h = h
add_pdo-Fits k ram objects objd (suc rounds) c l h =
    then-Fits k (add_mapping k objects (fetch32 ram (entry_at objd c)) l) _
      (add_mapping-Fits k objects _ l h) (add_pdo-Fits k ram objects objd rounds (c + 1))

found-Fits :
    (k : ℕ) (m : Option ℕ) (missing : Filling) (f : ℕ → Filling)
    → Fits k missing
    → ((nidx : ℕ) → Fits k (f nidx))
    → Fits k (elim m [ none ↦ missing | some nidx ↦ f nidx ])
found-Fits k none missing f h g = h
found-Fits k (some nidx) missing f h g = g nidx

add_pdos-Fits :
    (k : ℕ) (ram : Mem) (objects : List Object) (assigned : List Entry) (rounds sic : ℕ)
    (l : Layout)
    → length l.maps ≤ k
    → Fits k (add_pdos k ram objects assigned rounds sic l)
unfolding add_pdos
add_pdos-Fits k ram objects assigned zero sic l h = h
add_pdos-Fits k ram objects assigned (suc rounds) sic l h =
    found-Fits k (findobject (fetch16 ram (entry_at assigned sic)) objects) _ _
      (add_pdos-Fits k ram objects assigned rounds (sic + 1) l h)
      (λ nidx.
        then-Fits k _ _ (add_pdo-Fits k ram objects (object_at objects nidx).entries _ 1 l h)
          (add_pdos-Fits k ram objects assigned rounds (sic + 1)))

-- What sizeOfPDO leaves of a table of `k` mappings.
pub record InTable (k : ℕ) (r : PdoSize) : Type 0 where
  pub count : IsBounded k r.nmappings
  pub written : length r.maps ≤ k

pdo_result-InTable : (k : ℕ) (m : Filling) → Fits k m → InTable k (pdo_result k m)
unfolding pdo_result
pdo_result-InTable k (invalid l) h = record { count = tt; written = h }
pdo_result-InTable k (filled l) h = record {
  count = if-elim (λ n. n ≤ k) (k == 0) (λ _. omega arith) (λ _. h);
  written = h;
}

-- Whatever the dictionary holds, sizeOfPDO stores no more mappings than the table has places, also
-- when it returns with -1 for an invalid mapping or a full table, and the number of mappings that it reports
-- is at most the size of the table, if both were so before.
pub size_of_pdo-IsBounded :
    (index : ℕ) (before : Option ℕ) (stored : List Mapping) (k : ℕ) (ram : Mem)
    (objects : List Object)
    → IsBounded k before
    → length stored ≤ k
    → InTable k (size_of_pdo index before stored k ram objects)
unfolding size_of_pdo
size_of_pdo-IsBounded index before stored k ram objects h fits =
    if-elim (λ (r : PdoSize). InTable k r) ((index == rx_pdo_objidx) || (index == tx_pdo_objidx))
      (λ _. found (findobject index objects)) (λ _. kept)
  where
    kept : InTable k (record { bytes = 0; nmappings = before; maps = stored })
    kept = record { count = h; written = fits }

    assigned : ℕ → Filling
    assigned nidx =
        add_pdos k ram objects (object_at objects nidx).entries
          (fetch8 ram (entry_at (object_at objects nidx).entries 0)) 1
          (record { offset = 0; maps = [] })

    result : Option ℕ → PdoSize
    result none = record { bytes = 0; nmappings = before; maps = stored }
    result (some nidx) = pdo_result k (assigned nidx)

    found : (f : Option ℕ) → InTable k (result f)
    found none = kept
    found (some nidx) = pdo_result-InTable k (assigned nidx) (
        add_pdos-Fits k ram objects (object_at objects nidx).entries
          (fetch8 ram (entry_at (object_at objects nidx).entries 0)) 1
          (record { offset = 0; maps = [] }) (omega arith))
