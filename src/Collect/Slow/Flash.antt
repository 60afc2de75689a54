-- ===== src/Collect/Slow/Flash.antt =====
-- Flash wear in app/collect.c: the first card that reports it, and its two files.
use axis_cam_metrics.Base.{
  ◌-◌, max, List, [], ◌∷◌, ◌++◌, Option, none, some, not, ◌&&◌, if◌then◌else◌, ◌==◌, get_or, length,
  ltb,
}
use axis_cam_metrics.Base.Text.{Text, codes, strlcpy}
use axis_cam_metrics.Floats.{Floats}
use axis_cam_metrics.Metrics.{MetricRegistry}
use axis_cam_metrics.Collect.Device.{Device, Scanning, read_text, reg, set_reading}
use axis_cam_metrics.Collect.Slow.{Slow}

abbrev mmc_path : Text
mmc_path = codes "/sys/class/mmc_host"

-- The first card below a host that reports its wear: the two files that are read.
unfoldable pub find_card : Device → Text → List Text → Option (Text × Text)
find_card device pattern [] = none
find_card device pattern (card ∷ cards) =
    let life = strlcpy 192 (pattern ++ (codes "/" ++ (card ++ codes "/life_time"))) in
    let eol = strlcpy 192 (pattern ++ (codes "/" ++ (card ++ codes "/pre_eol_info"))) in
    let rest = find_card device pattern cards in
    if not (device.exists life) then rest else some (strlcpy 160 life, strlcpy 160 eol)

-- The loop over the hosts: it ends at the first with such a card.
unfoldable pub find_flash : Device → List Text → Option (Text × Text)
unfolding find_card
find_flash device [] = none
find_flash device (host ∷ hosts) =
    let pattern = strlcpy 192 (mmc_path ++ (codes "/" ++ host)) in
    elim (device.dir pattern) [
      | none ↦ find_flash device hosts
      | some cards ↦ elim (find_card device pattern cards) [
        | none ↦ find_flash device hosts
        | some found ↦ some found
      ]
    ]

unfoldable pub discover_flash_wear : Device → MetricRegistry × Slow → MetricRegistry × Slow
unfolding find_flash reg
discover_flash_wear device (r0, slow) = elim (device.dir mmc_path) [
  | none ↦ (r0, slow)
  | some hosts ↦ elim (find_flash device hosts) [
    | none ↦ (r0, slow)
    | some (life, eol) ↦
        let (r1, used) =
          reg r0 (codes "flash.life_used") (codes "Flash life used") (codes "%")
            (codes "storage") in
        let (r2, state) =
          reg r1 (codes "flash.pre_eol") (codes "Flash pre-EOL state") [] (codes "storage") in
        (
          r2,
          record slow {
            flash_life_path = life;
            flash_eol_path = eol;
            idx_flash_life = used;
            idx_flash_eol = state;
          },
        )
  ]
]

module _ (F : Floats) (scanning : Scanning F) where
  open F use {Float, Double}

  unfoldable pub sample_flash_wear : Device → Slow → List Float → List Float
  unfolding read_text set_reading
  sample_flash_wear device slow values =
      let lived : List Float = elim (read_text device slow.flash_life_path 64) [
        | none ↦ values
        | some text ↦
            let bands = scanning.scan_us (codes "%x %x") text in
            let worst = max (get_or bands 0 0) (get_or bands 1 0) in
            if ltb 0 (length bands) && ltb 0 worst
            then set_reading F values slow.idx_flash_life
                (F.mul (F.of_nat (worst - 1)) (F.of_nat 10))
            else values
      ] in
      let eol : List Float = elim (read_text device slow.flash_eol_path 64) [
        | none ↦ lived
        | some text ↦ set_reading F lived slow.idx_flash_eol (F.of_nat (scanning.strtoull text 16))
      ] in
      if length slow.flash_life_path == 0 then values else eol
