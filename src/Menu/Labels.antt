-- ===== src/Menu/Labels.antt =====
-- internal/tui: what the menus show of values, cut and filled to a width.
use Prim.Native.Char.{code}
use Prim.Native.String
use sbackup.Base.{
  ℕ, zero, suc, ◌+◌, ◌-◌, String, Bool, not, List, [], ◌∷◌, ◌++◌, none, some, length, leb,
  if◌then◌else◌, ◌==◌, string_eq,
}
use sbackup.Base.Int.{ℤ, pos, itoa, ltb_ℤ}
use sbackup.Base.Text.{concat, join, split, trim_suffix}
use sbackup.Config.{Config, Job, Schedule, Retention, job, storage}
use sbackup.Menu.Plan.{fields, last_of}

-- `displayWidth`: a wide character takes two columns.
unfoldable pub display_width : String → ℕ
display_width String.[] = 0
display_width (String.◌∷◌ c s) = (if leb 0x2e80 (code c) then 2 else 1) + display_width s

unfoldable pub spaces : ℕ → String
spaces zero = ""
spaces (suc n) = String.◌∷◌ " " (spaces n)

-- `padDisplay`
unfoldable pub pad_display : String → ℕ → String
unfolding display_width spaces
pad_display value width = String.◌++◌ value (spaces (width - display_width value))

unfoldable pub rune_count : String → ℕ
rune_count String.[] = 0
rune_count (String.◌∷◌ c s) = suc (rune_count s)

unfoldable pub first_runes : ℕ → String → String
first_runes zero s = ""
first_runes (suc n) String.[] = ""
first_runes (suc n) (String.◌∷◌ c s) = String.◌∷◌ c (first_runes n s)

-- `truncate`, for a limit of at least 1; the callers give a number
unfoldable pub truncate : String → ℕ → String
unfolding rune_count first_runes
truncate value limit =
    if leb (rune_count value) limit then value else String.◌++◌ (first_runes (limit - 1) value) "…"

-- `valueSummary`
unfoldable pub value_summary : List String → String
unfolding truncate
value_summary [] = "未配置"
value_summary (v ∷ []) = truncate v 28
value_summary (v ∷ w ∷ vs) = concat (itoa (pos (length (v ∷ w ∷ vs))) ∷ " 项" ∷ [])

abbrev part : Bool → String → List String
part shown text = if shown then text ∷ [] else []

-- `scanOptionSummary`
unfoldable pub scan_option_summary : Job → String
scan_option_summary j =
    let parts =
      part j.sources.strict_paths "严格来源"
      ++ (part j.sources.one_file_system "单文件系统"
          ++ part j.verification.metadata_after_backup "备份后校验") in
    if leb (length parts) 0 then "默认" else join " / " parts

abbrev count_part : String → ℤ → List String
count_part label n = part (ltb_ℤ (pos 0) n) (concat (label ∷ " " ∷ itoa n ∷ []))

-- `retentionSummary`
unfoldable pub retention_summary : Retention → String
retention_summary r = join " / " (
    count_part "最近" r.keep_last
    ++ (count_part "每小时" r.keep_hourly
        ++ (count_part "每天" r.keep_daily
            ++ (count_part "每周" r.keep_weekly
                ++ (count_part "每月" r.keep_monthly
                    ++ (count_part "每年" r.keep_yearly
                        ++ part (not (r.keep_within == ""))
                            (concat ("期限 " ∷ r.keep_within ∷ []))))))))

-- `modeLabel`
unfoldable pub mode_label : String → String
mode_label mode = if mode == "full" then "全量扫描" else "智能增量"

unfoldable pub shown_clocks : List String → List String
shown_clocks [] = []
shown_clocks (e ∷ es) =
    let rest = shown_clocks es in
    elim (last_of (fields e)) [ none ↦ rest | some w ↦ trim_suffix w ":00" ∷ rest ]

-- `scheduleSummary`
unfoldable pub schedule_summary : Schedule → String
unfolding shown_clocks
schedule_summary s =
    let clocks = shown_clocks (split b';' s.expression) in
    if not s.enabled
    then "手动运行"
    else if s.type == "interval"
    then concat ("每隔 " ∷ s.expression ∷ [])
    else if leb 1 (length clocks)
    then concat ("每天 " ∷ join " / " clocks ∷ [])
    else s.expression

-- `storageDisplayName`
unfoldable pub storage_display_name : Config → String → String
storage_display_name c id = elim (storage c id) [ none ↦ "未知存储" | some s ↦ s.name ]

-- `jobDisplayName`
unfoldable pub job_display_name : Config → String → String
unfolding truncate
job_display_name c id = elim (job c id) [
  | none ↦ truncate (concat (id ∷ " (已删除)" ∷ [])) 15
  | some j ↦ truncate j.name 15
]
