-- ===== src/Collect/Mounts.antt =====
-- `collector_mounts_changed` against `discover_mounts`.
use axis_cam_metrics.Base.{
  ℕ, ◌≤◌, ◌≡◌, refl, sym, ap, ◌∙◌, List, [], ◌∷◌, ◌++◌, some, true, false, not, arith, length,
  length-append, ltb, ◌==◌, if_ind, Bool-cases, inl, inr, ltb→lt,
}
use axis_cam_metrics.Base.Text.{Text, strlcpy}
use axis_cam_metrics.Metrics.{MetricRegistry}
use axis_cam_metrics.Collect.{
  MountLine, Mount, max_mounts, is_new_mount, discover_from, discover_mounts, count_from,
  collector_mounts_changed,
}

longer :
    (mounts : List Mount) (seen : List Text) (mount : Mount) (device : Text)
    → length mounts ≡ length seen
    → length (mounts ++ (mount ∷ [])) ≡ length (seen ++ (device ∷ []))
longer mounts seen mount device e =
    omega (arith, length-append mounts (mount ∷ []), length-append seen (device ∷ []))

count_from-discover_from :
    (lines : List MountLine) (registry : MetricRegistry) (mounts : List Mount) (seen : List Text)
    → length mounts ≡ length seen
    → count_from seen lines ≡ length (discover_from registry mounts seen lines).1
unfolding count_from discover_from
count_from-discover_from [] registry mounts seen e = sym e
count_from-discover_from (m ∷ ms) registry mounts seen e =
    elim (Bool-cases (ltb (length seen) max_mounts)) [
      | inr full ↦ rw (e, full) (sym e)
      | inl room ↦ elim (Bool-cases (is_new_mount seen m)) [
        | inl new ↦
            rw (e, room, new)
              (count_from-discover_from ms _ _ (seen ++ (strlcpy 128 m.device ∷ []))
                (longer mounts seen _ _ e))
        | inr old ↦ rw (e, room, old) (count_from-discover_from ms registry mounts seen e)
      ]
    ]

count_from-bounded :
    (lines : List MountLine) (seen : List Text)
    → length seen ≤ max_mounts
    → count_from seen lines ≤ max_mounts
unfolding count_from
count_from-bounded [] seen b = b
count_from-bounded (m ∷ ms) seen b =
    if_ind (λ (k : ℕ). k ≤ max_mounts) (ltb (length seen) max_mounts)
      (λ room.
        if_ind (λ (k : ℕ). k ≤ max_mounts) (is_new_mount seen m)
          (λ new. count_from-bounded ms _ (
            omega (
              arith,
              length-append seen (strlcpy 128 m.device ∷ []),
              ltb→lt (length seen) max_mounts room,
            )))
          (λ old. count_from-bounded ms seen b))
      (λ full. b)

-- The number of tracked filesystems.
abbrev pub found : MetricRegistry → List MountLine → ℕ
found registry lines = length (discover_mounts registry lines).1

count-found :
    (registry : MetricRegistry) (lines : List MountLine)
    → count_from [] lines ≡ found registry lines
unfolding discover_mounts
count-found registry lines = count_from-discover_from lines registry [] [] refl

-- After a discovery, the mounts count as changed exactly where another discovery, on any registry,
-- would track another number of filesystems; so they do not on the lines of the discovery itself. 16
-- filesystems at most are tracked.
pub mounts_changed-found :
    (registry registry' : MetricRegistry) (lines lines' : List MountLine)
    → (collector_mounts_changed (found registry lines) (some lines')
        ≡ not (found registry' lines' == found registry lines))
      × (collector_mounts_changed (found registry lines) (some lines) ≡ false)
      × (found registry lines ≤ max_mounts)
unfolding collector_mounts_changed
mounts_changed-found registry registry' lines lines' = (
  ap (λ (k : ℕ). not (k == found registry lines)) (count-found registry' lines'),
  ap (λ (k : ℕ). not (k == found registry lines)) (count-found registry lines)
      ∙ rw (same (found registry lines)) refl,
  omega (arith, count-found registry lines, count_from-bounded lines [] (omega arith)),
)
  where
    same : (k : ℕ) → (k == k) ≡ true
    same k = ground arith
