-- ===== src/EthernetIp/Cip/Path.antt =====
-- cip/path.go: EPATHs as lists of bytes. An `Add` method appends to the path; `classID` and the like
-- are 16-bit numbers, an instance of `AddInstance32` a 32-bit one.
pub mod Segments
pub mod Words
use goindustrial.Base.{
  ℕ, ◌+◌, ◌/◌, ◌%◌, ◌==◌, leb, ltb, if◌then◌else◌, List, [], ◌∷◌, ◌++◌, length, bit_or,
}
use goindustrial.Base.Bytes.{u8}
use goindustrial.Base.Bytes.Reader.{le16, le32}

abbrev pub segment_type_port : ℕ
segment_type_port = 0

abbrev pub segment_type_logical : ℕ
segment_type_logical = 32

abbrev pub logical_type_class : ℕ
logical_type_class = 0

abbrev pub logical_type_instance : ℕ
logical_type_instance = 4

abbrev pub logical_type_member : ℕ
logical_type_member = 8

abbrev pub logical_type_point : ℕ
logical_type_point = 12

abbrev pub logical_type_attribute : ℕ
logical_type_attribute = 16

abbrev pub logical_format8_bit : ℕ
logical_format8_bit = 0

abbrev pub logical_format16_bit : ℕ
logical_format16_bit = 1

abbrev pub logical_format32_bit : ℕ
logical_format32_bit = 2

-- `SegmentTypeLogical|LogicalType…|LogicalFormat…`; the three have no bit in common
abbrev pub logical_byte : ℕ → ℕ → ℕ
logical_byte logical_type format = segment_type_logical + logical_type + format

-- The body that `AddClass`, `AddInstance`, `AddAttribute`, `AddConnectionPoint` and `AddMember` share
unfoldable pub add_logical : ℕ → List ℕ → ℕ → List ℕ
add_logical logical_type path id =
    if leb id 255
    then path ++ logical_byte logical_type logical_format8_bit ∷ u8 id ∷ []
    else path ++ logical_byte logical_type logical_format16_bit ∷ 0 ∷ le16 id []

unfoldable pub add_class : List ℕ → ℕ → List ℕ
add_class path class_id = add_logical logical_type_class path class_id

unfoldable pub add_instance : List ℕ → ℕ → List ℕ
add_instance path instance_id = add_logical logical_type_instance path instance_id

unfoldable pub add_attribute : List ℕ → ℕ → List ℕ
add_attribute path attribute_id = add_logical logical_type_attribute path attribute_id

unfoldable pub add_connection_point : List ℕ → ℕ → List ℕ
add_connection_point path point_id = add_logical logical_type_point path point_id

unfoldable pub add_member : List ℕ → ℕ → List ℕ
add_member path member_id = add_logical logical_type_member path member_id

-- The three widths of `AddInstance32` and of `addMember32` (tag.go)
unfoldable pub add_logical32 : ℕ → List ℕ → ℕ → List ℕ
add_logical32 logical_type path id =
    if leb id 255
    then path ++ logical_byte logical_type logical_format8_bit ∷ u8 id ∷ []
    else if leb id 65535
    then path ++ logical_byte logical_type logical_format16_bit ∷ 0 ∷ le16 id []
    else path ++ logical_byte logical_type logical_format32_bit ∷ 0 ∷ le32 id []

unfoldable pub add_instance32 : List ℕ → ℕ → List ℕ
add_instance32 path instance_id = add_logical32 logical_type_instance path instance_id

unfoldable pub add_member32 : List ℕ → ℕ → List ℕ
add_member32 path id = add_logical32 logical_type_member path id

-- A zero byte after an odd number of bytes
abbrev pub pad_byte : ℕ → List ℕ
pad_byte n = if n % 2 == 0 then [] else 0 ∷ []

unfoldable pub add_symbolic_segment : List ℕ → List ℕ → List ℕ
add_symbolic_segment path symbol =
    path ++ 145 ∷ u8 (length symbol) ∷ (symbol ++ pad_byte (length symbol))

-- The segment of `AddPortSegment`, without its padding
unfoldable pub port_segment : ℕ → List ℕ → List ℕ
port_segment port link_address =
    let b = if ltb port 15 then port else 15 in
    let long = ltb 1 (length link_address) in
    let first = if long then b + 16 else b in
    first
    ∷ ((if ltb port 15 then [] else le16 port [])
        ++ ((if long then u8 (length link_address) ∷ [] else []) ++ link_address))

unfoldable pub add_port_segment : List ℕ → ℕ → List ℕ → List ℕ
unfolding port_segment
add_port_segment path port link_address =
    let segment = port_segment port link_address in path ++ (segment ++ pad_byte (length segment))

unfoldable pub len_words : List ℕ → ℕ
len_words path = u8 ((length path + 1) / 2)

unfoldable pub build_path : ℕ → ℕ → ℕ → List ℕ
unfolding add_class add_instance add_attribute
build_path class_id instance_id attribute_id =
    let path = add_instance (add_class [] class_id) instance_id in
    if attribute_id == 0 then path else add_attribute path attribute_id
