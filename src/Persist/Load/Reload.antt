-- ===== src/Persist/Load/Reload.antt =====
-- What reading back a file that was closed does, and what a sync writes.
use axis_cam_metrics.Base.{
  ℕ, zero, suc, ◌+◌, ◌-◌, ◌%◌, ◌^◌, ◌≤◌, ◌<◌, ◌≡◌, refl, sym, ap, ◌∙◌, List, [], ◌∷◌, ◌++◌, Option,
  none, some, arith, length, get_elem?, get_or, take, tabulate, tabulate-eq, min, drop, tail, subst,
  length-append, Bool, true, map, append-nil, append_assoc, take_all, le→ltb, lt→ltb,
  length-tabulate,
}
use axis_cam_metrics.Base.Int.{ℤ, pos}
use axis_cam_metrics.Base.Words.{u32, sub32}
use axis_cam_metrics.Floats.{Floats}
use axis_cam_metrics.Ring.{oldest, oldest-lt, length-contents}
use axis_cam_metrics.Store.{
  Store, StoreTier, tier_at, store_tier_sample, store_tier_count, row_at, timestamp_at,
}
use axis_cam_metrics.Store.Inv.{IsTier, Entry, tier_contents, sample-get_elem?}
use axis_cam_metrics.Persist.{
  File, Record, Persist, write_header, persist_close, initialise_file, persist_append,
}
use axis_cam_metrics.Persist.Slots.{IsFile, record_at, logged, logged-persist_append}
use native.Mathlib.Nat.{mod-lt}
use native.Mathlib.Numerals.{add-one}
use axis_cam_metrics.Persist.Load.{
  mapping_of, is_readable, restore_record, load_from, persist_load, sync_from, persist_sync,
}

get_elem?-get_or {ℓ} :
    {A : Type ℓ} (xs : List A) (i : ℕ) (d : A)
    → i < length xs
    → get_elem? xs i ≡ some (get_or xs i d)
get_elem?-get_or [] i d h = absurd (omega arith)
get_elem?-get_or (x ∷ xs) zero d h = refl
get_elem?-get_or (x ∷ xs) (suc i) d h = get_elem?-get_or xs i d (omega arith)

get_elem?-drop {ℓ} : {A : Type ℓ} (xs : List A) (i : ℕ) → get_elem? xs i ≡ get_elem? (drop i xs) 0
get_elem?-drop xs zero = refl
get_elem?-drop [] (suc i) = refl
get_elem?-drop (x ∷ xs) (suc i) = get_elem?-drop xs i

drop-tail {ℓ} : {A : Type ℓ} (xs : List A) (i : ℕ) → drop (suc i) xs ≡ tail (drop i xs)
drop-tail [] zero = refl
drop-tail (x ∷ xs) zero = refl
drop-tail [] (suc i) = refl
drop-tail (x ∷ xs) (suc i) = drop-tail xs i

module _ (F : Floats) where
  open F use {Float}

  -- The records restored in their order.
  unfoldable pub restore_all : ℕ → List (Option ℕ) → Store F × ℕ → List (Record F) → Store F × ℕ
  restore_all tier mapping st [] = st
  restore_all tier mapping st (r ∷ rs) =
      restore_all tier mapping (restore_record F tier mapping st r) rs

  load_from-tabulate :
      (p : Persist F) (start tier : ℕ) (mapping : List (Option ℕ)) (k i : ℕ) (st : Store F × ℕ)
      → IsFile F p
      → start < p.capacity
      → i + k ≤ p.capacity
      → load_from F p.file.records p.capacity start tier mapping k i st
        ≡ restore_all tier mapping st
            (tabulate k (λ j. record_at F p ((start + (i + j)) % p.capacity)))
  unfolding load_from restore_all
  load_from-tabulate p start tier mapping zero i st v sm b = refl
  load_from-tabulate p start tier mapping (suc k) i st v sm b =
      let e : u32 (start + i) ≡ start + i = omega (arith, v.small) in
      let e0 : ◌≡◌ {A = ℕ} (i + 0) i = omega arith in
      rw
        (
          e,
          e0,
          get_elem?-get_or p.file.records ((start + i) % p.capacity) (pos 0, [])
              (rw v.all_records (mod-lt (start + i) v.some_room)),
          load_from,
        )
        (load_from-tabulate p start tier mapping k (i + 1) _ v sm (omega arith)
          ∙ ap (restore_all tier mapping _) (
              tabulate-eq k _ _
                (λ j l. ap (λ (a : ℕ). record_at F p ((start + a) % p.capacity)) (omega arith))))

  header_readable :
      (p : Persist F)
      → 0 < p.capacity
      → 0 < p.n_metrics
      → p.n_metrics ≤ 100000
      → is_readable (write_header F p).file.header p.interval_s ≡ true
  unfolding write_header is_readable
  header_readable p c n m = ground arith

  close_owned : (p : Persist F) → p.owns_file ≡ true → persist_close F p ≡ (write_header F p).file
  unfolding persist_close
  close_owned p own = rw own

  load_readable :
      (q : Persist F) (s : Store F) (tier : ℕ)
      → is_readable q.file.header q.interval_s ≡ true
      → length q.file.ids ≡ q.file.header.n_metrics
      → q.file.header.count ≤ q.file.header.capacity
      → persist_load F q s tier
        ≡ load_from F q.file.records q.file.header.capacity
            (sub32 (u32 (q.file.header.head + q.file.header.capacity)) q.file.header.count
              % q.file.header.capacity)
            tier
            (mapping_of s.registry q.file.ids)
            q.file.header.count
            0
            (s, 0)
  unfolding persist_load
  load_readable q s tier r e c =
      let m : min q.file.header.count q.file.header.capacity ≡ q.file.header.count = omega arith in
      rw
        (
          r,
          le→ltb (length q.file.ids) q.file.header.n_metrics (omega arith),
          m,
          take_all q.file.header.n_metrics q.file.ids (omega arith),
        )
        refl

  -- A file that `persist_close` has closed is read back whole, in order, by a later run at the same
  -- interval, where it has 1 to 100000 metrics and a table of as many ids: its records are restored
  -- one by one, oldest first, with their values placed by the ids.
  pub persist_load-persist_close :
      (p q : Persist F) (s : Store F) (tier : ℕ)
      → IsFile F p
      → p.owns_file ≡ true
      → 0 < p.n_metrics
      → p.n_metrics ≤ 100000
      → length p.file.ids ≡ p.n_metrics
      → q.file ≡ persist_close F p
      → q.interval_s ≡ p.interval_s
      → persist_load F q s tier
        ≡ restore_all tier (mapping_of s.registry p.file.ids) (s, 0) (logged F p)
  unfolding write_header
  persist_load-persist_close p q s tier v own some_metrics few table same interval =
      subst (λ (i : ℕ). persist_load F (record q { interval_s = i }) s tier ≡ result) (sym interval)
        (subst
          (λ (f : File F).
            persist_load F (record q { file = f; interval_s = p.interval_s }) s tier ≡ result)
          (sym (same ∙ close_owned p own)) at_closed)
    where
      result : Store F × ℕ
      result = restore_all tier (mapping_of s.registry p.file.ids) (s, 0) (logged F p)

      start_eq :
          sub32 (u32 (p.head + p.capacity)) p.count % p.capacity ≡ oldest p.capacity p.head p.count
      start_eq =
          let e : sub32 (u32 (p.head + p.capacity)) p.count ≡ p.head + p.capacity - p.count =
            omega (arith, v.small, v.head_in, v.count_in) in
          ap (λ (k : ℕ). k % p.capacity) e

      at_closed :
          persist_load F
            (record q { file = (write_header F p).file; interval_s = p.interval_s })
            s
            tier
          ≡ result
      at_closed =
          load_readable _ s tier (header_readable p v.some_room some_metrics few) table v.count_in
          ∙ rw start_eq (
              load_from-tabulate p (oldest p.capacity p.head p.count) tier
                (mapping_of s.registry p.file.ids) p.count 0 (s, 0) v
                (oldest-lt v.head_in v.count_in) (omega (arith, v.count_in))
              ∙ ap (restore_all tier (mapping_of s.registry p.file.ids) (s, 0)) (
                  tabulate-eq p.count _ _ (λ j l.
                    ap
                      (λ (a : ℕ).
                        record_at F p ((oldest p.capacity p.head p.count + a) % p.capacity))
                      (omega arith))))

  -- The record that a sync makes of a tier's entry.
  abbrev pub record_of : ℕ → Entry F → Record F
  record_of n (row, time) = (time, take n row)

  sync_stop :
      (fuel i : ℕ) (written : ℕ → Bool) (s : Store F) (tier : ℕ) (p : Persist F)
      → store_tier_sample F s tier i ≡ none
      → sync_from F (suc fuel) i written s tier p ≡ p
  unfolding sync_from
  sync_stop fuel i written s tier p h = rw (h, sync_from) refl

  sync_step :
      (fuel i : ℕ) (written : ℕ → Bool) (s : Store F) (tier : ℕ) (p : Persist F) (row : List Float)
      (time : ℤ)
      → store_tier_sample F s tier i ≡ some (row, time)
      → written i ≡ true
      → sync_from F (suc fuel) i written s tier p
        ≡ sync_from F fuel (i + 1) written s tier (persist_append F p true row time)
  unfolding sync_from
  sync_step fuel i written s tier p row time h w = rw (h, w, sync_from) refl

  -- An append to a file with room.
  append_room :
      (p : Persist F) (row : List Float) (time : ℤ)
      → IsFile F p
      → p.count < p.capacity
      → logged F (persist_append F p true row time)
        ≡ logged F p ++ (record_of p.n_metrics (row, time) ∷ [])
  append_room p row time v c =
      (logged-persist_append F p row time v).1
      ∙ rw
          (
            length-tabulate p.count
                (λ i. record_at F p ((oldest p.capacity p.head p.count + i) % p.capacity)),
            lt→ltb p.count p.capacity c,
          )
          refl

  count_after :
      (p : Persist F) (row : List Float) (time : ℤ)
      → IsFile F p
      → p.count < p.capacity
      → (persist_append F p true row time).count ≡ p.count + 1
  count_after p row time v c =
      let p' = persist_append F p true row time in
      let e : length (logged F p')
          ≡ length (logged F p ++ (record_of p.n_metrics (row, time) ∷ [])) =
        ap length (append_room p row time v c) in
      omega (
        arith,
        e,
        length-append (logged F p) (record_of p.n_metrics (row, time) ∷ []),
        length-contents (record_at F p') p'.capacity p'.head p'.count,
        length-contents (record_at F p) p.capacity p.head p.count,
      )

  module _ (s : Store F) (tier : ℕ) (t : StoreTier F) (e : tier_at F s tier ≡ some t)
      (v : IsTier F t) (written : ℕ → Bool) (all_written : (i : ℕ) → written i ≡ true) where
    sample_drop :
        (i : ℕ) (ys : List (Entry F))
        → drop i (tier_contents F s.n_metrics t) ≡ ys
        → store_tier_sample F s tier i ≡ get_elem? ys 0
    sample_drop i ys d =
        sample-get_elem? F s tier t i e v
        ∙ get_elem?-drop (tier_contents F s.n_metrics t) i
        ∙ ap (λ l. get_elem? l 0) d

    -- The loop from round `i`, with the entries `ys` left.
    sync_from_lem :
        (ys : List (Entry F)) (i : ℕ) (p : Persist F)
        → drop i (tier_contents F s.n_metrics t) ≡ ys
        → IsFile F p
        → p.count + length ys ≤ p.capacity
        → p.n_metrics ≡ s.n_metrics
        → logged F (sync_from F (suc (length ys)) i written s tier p)
          ≡ logged F p ++ map (record_of s.n_metrics) ys
    sync_from_lem [] i p d v' b n =
        ap (logged F) (sync_stop 0 i written s tier p (sample_drop i [] d))
        ∙ sym (append-nil (logged F p))
    sync_from_lem ((row, time) ∷ ys) i p d v' b n =
        let p' = persist_append F p true row time in
        let (v'', grown, same, width, header) = logged-persist_append F p row time v' in
        ap (logged F) (
          sync_step (suc (length ys)) i written s tier p row time
            (sample_drop i ((row, time) ∷ ys) d) (all_written i))
        ∙ sync_from_lem ys (i + 1) p'
            (rw add-one (drop-tail (tier_contents F s.n_metrics t) i ∙ ap tail d)) v''
            (omega (arith, count_after p row time v' (omega arith))) (width ∙ n)
        ∙ ap (λ l. l ++ map (record_of s.n_metrics) ys) (append_room p row time v' (omega arith))
        ∙ append_assoc (logged F p) _ _
        ∙ ap (λ (k : ℕ). logged F p ++ (record_of k (row, time) ∷ map (record_of s.n_metrics) ys)) n

    -- A sync whose record writes succeed, of a tier that fits the file, leaves a file with the tier's
    -- entries, oldest first, whatever the file held.
    pub logged-persist_sync :
        (p : Persist F) (residue : ℕ → Record F)
        → 0 < p.capacity
        → p.capacity ≤ 2 ^ 31
        → t.count ≤ p.capacity
        → p.n_metrics ≡ s.n_metrics
        → logged F (persist_sync F p s tier residue written)
          ≡ map (record_of s.n_metrics) (tier_contents F s.n_metrics t)
    unfolding persist_sync initialise_file write_header store_tier_count
    logged-persist_sync p residue c small fits n =
        let q = initialise_file F p s.registry residue in
        let size : length (tier_contents F s.n_metrics t) ≡ t.count =
          length-contents (λ k. (take s.n_metrics (row_at F t k), timestamp_at F t k)) t.capacity
            t.head t.count in
        subst
          (λ (o : Option (StoreTier F)).
            logged F (sync_from F (suc (elim o [ none ↦ 0 | some u ↦ u.count ])) 0 written s tier q)
            ≡ map (record_of s.n_metrics) (tier_contents F s.n_metrics t))
          (sym e)
          (subst
            (λ (k : ℕ).
              logged F (sync_from F (suc k) 0 written s tier q)
              ≡ map (record_of s.n_metrics) (tier_contents F s.n_metrics t))
            size
            (sync_from_lem (tier_contents F s.n_metrics t) 0 q refl
              (record {
                some_room = c;
                small = small;
                head_in = c;
                count_in = omega arith;
                all_records = length-tabulate p.capacity residue;
              })
              (omega (arith, size)) n))
