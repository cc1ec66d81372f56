-- ===== src/Stream/Events.antt =====
-- internal/stream/sse.go: `readEvent` and `parseEvent`. The reader is the list of what its
-- `ReadSlice('\n')` calls return; after the last of them it is at the end of the input.
-- `bytes.TrimSpace` is a parameter.
use llm_security_audit_gatew.Base.{
  ℕ, ◌+◌, String, List, [], ◌∷◌, ◌++◌, Option, none, some, Bool, true, false, not, ◌&&◌, ltb, ◌==◌,
  length, take, drop, Bytes, if◌then◌else◌,
}
use llm_security_audit_gatew.Stream.Fragments.{Fragment, Codec, extract_fragments}

-- What one call of `ReadSlice` returns: a line with its newline, a full buffer, or the bytes before
-- the end of the input or before an error.
pub data Slice : Type 0 where
  line : Bytes → Slice
  full : Bytes → Slice
  end : Bytes → Slice
  broken : Bytes → String → Slice

pub record Event : Type 0 where
  pub raw : Bytes
  pub payload : Bytes
  pub done : Bool
  pub fragments : List Fragment

abbrev pub bytes_eq : Bytes → Bytes → Bool
bytes_eq [] [] = true
bytes_eq (x ∷ xs) (y ∷ ys) = x == y && bytes_eq xs ys
bytes_eq _ _ = false

-- `bytes.TrimSuffix` by one byte.
unfoldable pub trim_last : ℕ → Bytes → Bytes
trim_last b [] = []
trim_last b (x ∷ []) = if x == b then [] else x ∷ []
trim_last b (x ∷ y ∷ ys) = x ∷ trim_last b (y ∷ ys)

unfoldable pub is_blank_line : Bytes → Bool
unfolding trim_last
is_blank_line l = length (trim_last b'\r' (trim_last b'\n' l)) == 0

-- `bytes.SplitAfter(raw, "\n")`, with the bytes of the line at hand.
unfoldable pub split_after : Bytes → Bytes → List Bytes
split_after held [] = held ∷ []
split_after held (b ∷ bs) =
    let at_newline = (held ++ b ∷ []) ∷ split_after [] bs in
    let inside = split_after (held ++ b ∷ []) bs in if b == b'\n' then at_newline else inside

abbrev pub data_prefix : Bytes
data_prefix = b'd' ∷ b'a' ∷ b't' ∷ b'a' ∷ []

-- `if len(value) > 0 && value[0] == ' ' { value = value[1:] }`.
abbrev pub skip_space : Bytes → Bytes
skip_space [] = []
skip_space (b ∷ bs) = if b == b' ' then bs else b ∷ bs

-- What follows `data` on a data line.
abbrev pub data_value : Bytes → Option Bytes
data_value [] = some []
data_value (b ∷ value) = if not (b == b':') then none else some (skip_space value)

-- What a trimmed line adds to the data; `none` where it is no data line.
unfoldable pub data_line : Bytes → Option Bytes
data_line l = if not (bytes_eq (take 4 l) data_prefix) then none else data_value (drop 4 l)

-- The loop of `parseEvent`.
unfoldable pub data_lines : List Bytes → List Bytes
unfolding data_line trim_last
data_lines [] = []
data_lines (l ∷ ls) =
    let rest = data_lines ls in
    elim (data_line (trim_last b'\r' (trim_last b'\n' l))) [
      | none ↦ rest
      | some value ↦ value ∷ rest
    ]

-- `bytes.Join(lines, "\n")`.
unfoldable pub join_lines : List Bytes → Bytes
join_lines [] = []
join_lines (l ∷ []) = l
join_lines (l ∷ m ∷ ls) = l ++ (b'\n' ∷ join_lines (m ∷ ls))

abbrev pub done_mark : Bytes
done_mark = b'[' ∷ b'D' ∷ b'O' ∷ b'N' ∷ b'E' ∷ b']' ∷ []

module _ (codec : Codec) (trim_space : Bytes → Bytes) where
  unfoldable pub parse_event : Bytes → Event
  unfolding data_lines split_after join_lines
  parse_event raw =
      let payload = join_lines (data_lines (split_after [] raw)) in
      let done = bytes_eq (trim_space payload) done_mark in
      record {
        raw = raw;
        payload = payload;
        done = done;
        fragments = if not done then extract_fragments codec payload else [];
      }

-- The error of `readEvent`.
pub data ReadError : Type 0 where
  eof : ReadError
  event_too_large : ReadError
  read_failed : String → ReadError

-- What `readEvent` returns, the event by its raw bytes, and the slices still to be read.
pub record Read : Type 0 where
  pub event : Option Bytes
  pub error : Option ReadError
  pub unread : List Slice

-- `readEvent` at the end of the input.
abbrev pub at_eof : Bytes → List Slice → Read
at_eof [] rest = record { event = none; error = some eof; unread = rest }
at_eof (b ∷ bs) rest = record { event = some (b ∷ bs); error = some eof; unread = rest }

abbrev pub too_large : List Slice → Read
too_large rest = record { event = none; error = some event_too_large; unread = rest }

-- `readEvent`, with the bytes gathered so far. An empty slice is never too large: `raw` is within
-- the limit.
unfoldable pub read_event : ℕ → Bytes → List Slice → Read
unfolding is_blank_line
read_event limit raw [] = at_eof raw []
read_event limit raw (line l ∷ rest) =
    let next = read_event limit (raw ++ l) rest in
    if ltb 0 (length l) && ltb limit (length raw + length l)
    then too_large rest
    else if ltb 0 (length l) && is_blank_line l
    then record { event = some (raw ++ l); error = none; unread = rest }
    else next
read_event limit raw (full l ∷ rest) =
    let next = read_event limit (raw ++ l) rest in
    if ltb 0 (length l) && ltb limit (length raw + length l) then too_large rest else next
read_event limit raw (end l ∷ rest) =
    if ltb 0 (length l) && ltb limit (length raw + length l)
    then too_large rest
    else at_eof (raw ++ l) rest
read_event limit raw (broken l e ∷ rest) =
    if ltb 0 (length l) && ltb limit (length raw + length l)
    then too_large rest
    else record { event = none; error = some (read_failed e); unread = rest }
