-- ===== src/Model/Gguf/Parse.antt =====
-- src/model/gguf.rs: `GgufFile::parse`. Nested arrays take fuel, one unit for each level; a level
-- costs twelve bytes of the file, so the number of bytes is enough. Allocations that are sized by
-- the counts in the file are taken to succeed.
pub mod Reads
pub mod Fuel
pub mod Header
use package.hypura.Prelude.{
  ℕ, zero, suc, ◌+◌, ◌-◌, ◌*◌, ◌/◌, ◌%◌, Bool, true, false, not, ◌||◌, Option, none, some, List, [],
  ◌∷◌, if◌then◌else◌, ltb, length, ◌==◌,
}
use package.hypura.Prelude.Text.{Text, text_eq, text_beq}
use package.hypura.Prelude.Dict.{Dict, insert}
use hypura.Model.Gguf
use hypura.Model.Gguf.{
  GgufFile, GgufValue, Values, TensorInfo, GgmlType, GgufError, wrapping_product, block_size,
}
use hypura.Model.Gguf.Reader.{
  Reader, Result, ok, err, Read, ◌>>=◌, return, fail, read_u8, read_le, read_string,
}

abbrev pub gguf_magic : ℕ
gguf_magic = 0x46554747

-- A count of values in a row.
unfoldable pub read_many : Read GgufValue → ℕ → Read Values
read_many read zero = return Values.nil
read_many read (suc n) = do v ← read; vs ← read_many read n; return (Values.cons v vs)

abbrev pub read_bool : Read GgufValue
read_bool = do val ← read_u8; return (GgufValue.bool (not (val == 0)))

abbrev pub read_num : (ℕ → GgufValue) → ℕ → Read GgufValue
read_num make n = do v ← read_le n; return (make v)

-- The array case: its element type, its count, and its elements by `read`.
abbrev pub read_array : (ℕ → Read GgufValue) → Read GgufValue
read_array read = do
  elem_type ← read_le 4
  count ← read_le 8
  arr ← read_many (read elem_type) count
  return (GgufValue.array arr)

-- The match on the value type, where `read` reads the elements of an array.
unfoldable pub read_case : (ℕ → Read GgufValue) → ℕ → Read GgufValue
unfolding read_u8 read_le read_string read_many
read_case read vtype =
    if vtype == 0
    then read_num GgufValue.uint8 1
    else if vtype == 1
    then read_num GgufValue.int8 1
    else if vtype == 2
    then read_num GgufValue.uint16 2
    else if vtype == 3
    then read_num GgufValue.int16 2
    else if vtype == 4
    then read_num GgufValue.uint32 4
    else if vtype == 5
    then read_num GgufValue.int32 4
    else if vtype == 6
    then read_num GgufValue.float32 4
    else if vtype == 7
    then read_bool
    else if vtype == 8
    then (do s ← read_string; return (GgufValue.string s))
    else if vtype == 9
    then read_array read
    else if vtype == 10
    then read_num GgufValue.uint64 8
    else if vtype == 11
    then read_num GgufValue.int64 8
    else if vtype == 12
    then read_num GgufValue.float64 8
    else fail (GgufError.unknown_value_type vtype)

unfoldable pub read_value_of_type : ℕ → ℕ → Read GgufValue
unfolding read_case
read_value_of_type zero vtype = fail GgufError.out_of_fuel
read_value_of_type (suc fuel) vtype = read_case (λ t. read_value_of_type fuel t) vtype

unfoldable pub read_value : ℕ → Read GgufValue
unfolding read_value_of_type read_le
read_value fuel = do vtype ← read_le 4; read_value_of_type fuel vtype

-- The metadata: so many keys with their values; a later value of a key replaces an earlier one.
unfoldable pub read_metadata : ℕ → ℕ → Dict Text GgufValue → Read (Dict Text GgufValue)
unfolding read_string read_value text_beq
read_metadata fuel zero m = return m
read_metadata fuel (suc n) m = do
  key ← read_string
  value ← read_value fuel
  read_metadata fuel n (insert key value m)

unfoldable pub read_dimensions : ℕ → Read (List ℕ)
unfolding read_le
read_dimensions zero = return []
read_dimensions (suc n) = do d ← read_le 8; ds ← read_dimensions n; return (d ∷ ds)

-- `num_elements / block_elems * block_bytes`, wrapping.
unfoldable pub size_of : GgmlType → List ℕ → ℕ
unfolding block_size
size_of dtype dimensions =
    wrapping_product dimensions / (block_size dtype).0 * (block_size dtype).1 % 18446744073709551616

unfoldable pub read_tensor : Read TensorInfo
unfolding read_string read_le read_dimensions size_of Gguf.from_u32 Gguf.parse_layer_index
read_tensor = do
  name ← read_string
  n_dims ← read_le 4
  dimensions ← read_dimensions n_dims
  dtype_raw ← read_le 4
  offset ← read_le 8
  return (record {
    name = name;
    dimensions = dimensions;
    dtype = Gguf.from_u32 dtype_raw;
    offset = offset;
    size_bytes = size_of (Gguf.from_u32 dtype_raw) dimensions;
    layer_index = Gguf.parse_layer_index name;
  })

unfoldable pub read_tensors : ℕ → Read (List TensorInfo)
unfolding read_tensor
read_tensors zero = return []
read_tensors (suc n) = do t ← read_tensor; ts ← read_tensors n; return (t ∷ ts)

-- The start of the data: the position, rounded up to the alignment of 32 bytes.
abbrev pub align_32 : ℕ → ℕ
align_32 current_pos = (current_pos + 32 - 1) / 32 * 32

abbrev pub stream_position : Read ℕ
stream_position r = ok (r.position, r)

-- Behind the version.
unfoldable pub parse_body : ℕ → ℕ → Read GgufFile
unfolding read_le read_metadata read_tensors
parse_body fuel version = do
  tensor_count ← read_le 8
  metadata_kv_count ← read_le 8
  metadata ← read_metadata fuel metadata_kv_count []
  tensors ← read_tensors tensor_count
  current_pos ← stream_position
  return (record {
    version = version;
    metadata = metadata;
    tensors = tensors;
    data_offset = align_32 current_pos;
  })

abbrev pub check_version : ℕ → ℕ → Read GgufFile
check_version fuel version =
    if ltb version 2 || ltb 3 version
    then fail (GgufError.unsupported_version version)
    else parse_body fuel version

abbrev pub check_magic : ℕ → ℕ → Read GgufFile
check_magic fuel magic =
    if magic == gguf_magic
    then (read_le 4 >>= check_version fuel)
    else fail (GgufError.invalid_magic magic)

unfoldable pub parse_on : ℕ → Read GgufFile
unfolding read_le parse_body
parse_on fuel = read_le 4 >>= check_magic fuel

abbrev pub drop_reader : Result (GgufFile × Reader) → Result GgufFile
drop_reader (ok (g, r)) = ok g
drop_reader (err e) = err e

unfoldable pub parse : List ℕ → Result GgufFile
unfolding parse_on
parse input = drop_reader (parse_on (suc (length input)) (record { bytes = input; position = 0 }))
