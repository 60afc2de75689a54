-- ===== src/Persist/Slots.antt =====
-- `persist_append` and `persist_close`: which records a file holds, oldest first.
use axis_cam_metrics.Base.{
  ℕ, ◌+◌, ◌^◌, ◌≤◌, ◌<◌, ◌≡◌, refl, ◌%◌, List, [], if◌then◌else◌, arith, length, take, set, get_or,
  ltb, leb, length-set, get_or-set_self, get_or-set_ne, Bool-cases, inl, inr, true,
}
use axis_cam_metrics.Base.Int.{ℤ, pos}
use axis_cam_metrics.Base.Words.{u32}
use axis_cam_metrics.Floats.{Floats}
use axis_cam_metrics.Ring.{contents, push_bounded, contents-append}
use axis_cam_metrics.Store.Inv.{u32_succ}
use axis_cam_metrics.Persist.{
  Persist, Record, write_header, append_written, persist_append, header_flush_every,
}
use native.Mathlib.Nat.{mod-lt}

module _ (F : Floats) where
  open F use {Float}

  pub record IsFile (p : Persist F) : Type 0 where
    pub some_room : 0 < p.capacity
    pub small : p.capacity ≤ 2 ^ 31
    pub head_in : p.head < p.capacity
    pub count_in : p.count ≤ p.capacity
    pub all_records : length p.file.records ≡ p.capacity

  abbrev pub record_at : Persist F → ℕ → Record F
  record_at p slot = get_or p.file.records slot (pos 0, [])

  -- What the file holds, oldest first.
  abbrev pub logged : Persist F → List (Record F)
  logged p = contents (record_at p) p.capacity p.head p.count

  -- The append before the header is written.
  abbrev appended : Persist F → List Float → ℤ → Persist F
  appended p values time = record p {
    file = record (p.file) { records = set p.file.records p.head (time, take p.n_metrics values) };
    head = u32 (p.head + 1) % p.capacity;
    count = if ltb p.count p.capacity then u32 (p.count + 1) else p.count;
    appends_since_header = u32 (p.appends_since_header + 1);
  }

  appended-IsFile :
      (p : Persist F) (values : List Float) (time : ℤ) → IsFile p → IsFile (appended p values time)
  appended-IsFile p values time v = ground (
    arith,
    length-set p.file.records p.head (time, take p.n_metrics values),
    mod-lt (u32 (p.head + 1)) v.some_room,
  )

  logged-appended :
      (p : Persist F) (values : List Float) (time : ℤ)
      → IsFile p
      → logged (appended p values time)
        ≡ push_bounded p.capacity (logged p) (time, take p.n_metrics values)
  logged-appended p values time v =
      rw
        (
          u32_succ p.head p.capacity v.small (omega arith),
          u32_succ p.count p.capacity v.small v.count_in,
        )
        (contents-append (record_at p) (record_at (appended p values time))
          (time, take p.n_metrics values) v.head_in
          (get_or-set_self p.file.records p.head (time, take p.n_metrics values) _ (omega arith))
          (λ j ne. get_or-set_ne p.file.records p.head j (time, take p.n_metrics values) _ ne)
          p.count v.count_in)

  -- A record write that succeeds keeps the file's invariant and its layout, and the file then holds
  -- what it held and the new record, less the oldest of a full file. The 60th append since the header
  -- was written leaves a header with the index of the file; any other leaves the header.
  pub logged-persist_append :
      (p : Persist F) (values : List Float) (time : ℤ)
      → IsFile p
      → let p' = persist_append F p true values time in
        IsFile p'
        × (logged p' ≡ push_bounded p.capacity (logged p) (time, take p.n_metrics values))
        × (p'.capacity ≡ p.capacity)
        × (p'.n_metrics ≡ p.n_metrics)
        × (p'.file.header ≡ (
            if leb header_flush_every (u32 (p.appends_since_header + 1))
            then (write_header F p').file.header
            else p.file.header))
  unfolding persist_append append_written write_header
  logged-persist_append p values time v =
      let v' = appended-IsFile p values time v in
      let e = logged-appended p values time v in
      elim (Bool-cases (leb header_flush_every (u32 (p.appends_since_header + 1)))) [
        | inl t ↦ rw t (
          record {
            some_room = v'.some_room;
            small = v'.small;
            head_in = v'.head_in;
            count_in = v'.count_in;
            all_records = v'.all_records;
          },
          e,
          refl,
          refl,
          refl,
        )
        | inr t ↦ rw t (v', e, refl, refl, refl)
      ]
