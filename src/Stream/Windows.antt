-- ===== src/Stream/Windows.antt =====
-- internal/stream/sse.go: `Scanner` and `Windows`. A scanner's `buf` is only the storage behind
-- the slice that `Feed` returns, which callers consume before the next call, so the slice is a
-- value here.
use llm_security_audit_gatew.Base.{
  ℕ, ◌-◌, String, ℤ, pos, pos_part, leb_ℤ, List, [], ◌++◌, Option, none, some, ltb, length, drop,
  lookup, insert, Bytes, if◌then◌else◌,
}

abbrev pub default_audit_window_bytes : ℕ
default_audit_window_bytes = 16384

pub record Scanner : Type 0 where
  pub tail : Bytes
  pub window : ℕ

-- `if window <= 0 { window = DefaultAuditWindowBytes }`.
abbrev pub window_or_default : ℤ → ℕ
window_or_default w = if leb_ℤ w (pos 0) then default_audit_window_bytes else pos_part w

unfoldable pub new_scanner : ℤ → Scanner
new_scanner window = record { tail = []; window = window_or_default window }

-- `Scanner.Feed`: the new state and the returned text.
unfoldable pub feed : Scanner → Bytes → Scanner × Bytes
feed s chunk =
    let combined = s.tail ++ chunk in
    (
      record s {
        tail =
            if ltb s.window (length combined)
            then drop (length combined - s.window) combined
            else combined;
      },
      combined,
    )

pub record Windows : Type 0 where
  pub window : ℕ
  pub by_key : List (String × Scanner)

unfoldable pub new_windows : ℤ → Windows
new_windows window = record { window = window_or_default window; by_key = [] }

-- The scanner of a channel; a channel that was not fed yet gets one of the same window.
abbrev pub scanner_or_new : ℕ → Option Scanner → Scanner
scanner_or_new window none = new_scanner (pos window)
scanner_or_new window (some s) = s

-- `Windows.Feed`.
unfoldable pub feed_channel : String → Bytes → Windows → Windows × Bytes
feed_channel channel chunk w =
    let (s, text) = feed (scanner_or_new w.window (lookup channel w.by_key)) chunk in
    (record w { by_key = insert channel s w.by_key }, text)
