-- ===== src/Cpu/Binary.antt =====
-- crates/marian-cpu/src/legacy_q8.rs: model files in Marian's binary format, version 1. Bytes are numbers;
-- the floats are the parameter `Floats`; the labels of the error messages are left out.
pub mod Parse
pub mod Model
pub mod Linear
pub mod Bytes
pub mod Headers
pub mod Payload
pub mod WellFormed
pub mod Lookup
pub mod Validate
pub mod Weights
pub mod Dense
pub mod Tests
use marian_edge.Common.{
  ℕ, ℤ, pos, negsuc, zero, suc, ◌+◌, ◌-◌, ◌*◌, ◌/◌, ◌^◌, ◌==◌, Bool, true, false, List, [], ◌∷◌,
  ◌++◌, Option, none, some, ltb, leb, if◌then◌else◌, length, take, drop, usize_max, checked_add,
  Outcome, ok, err, ◌>>=◌, ◌>>◌, fail_if, ok_or,
}
use marian_edge.Text.{Text, text_eq}

abbrev pub marian_binary_version : ℕ
marian_binary_version = 1

abbrev pub type_int8 : ℕ
type_int8 = 0x0101

abbrev pub type_float32 : ℕ
type_float32 = 0x0404

abbrev pub type_intgemm8 : ℕ
type_intgemm8 = 0x4101

abbrev pub maximum_file_bytes : ℕ
maximum_file_bytes = 128 * 1024 * 1024

abbrev pub maximum_tensors : ℕ
maximum_tensors = 4096

abbrev pub maximum_name_bytes : ℕ
maximum_name_bytes = 16 * 1024

abbrev pub maximum_rank : ℕ
maximum_rank = 8

abbrev pub data_alignment : ℕ
data_alignment = 256

-- The errors of crates/marian-cpu/src/q8_error.rs that parsing and loading raise, without their messages.
pub data Q8Error : Type 0 where
  invalid_format missing_tensor invalid_tensor : Q8Error

abbrev pub Loaded : Type 0 → Type 0
Loaded = Outcome Q8Error

-- What the code uses of `f32`.
pub record Floats : Type 1 where
  pub F32 : Type 0
  pub from_le_bytes : List ℕ → F32
  pub is_finite : F32 → Bool
  pub at_most_zero : F32 → Bool
  pub from_i8 : ℤ → F32
  pub divide : F32 → F32 → F32
  pub multiply : F32 → F32 → F32
  pub one : F32

pub data MarianTensorType : Type 0 where
  int8 float32 intgemm8 : MarianTensorType

-- `MarianTensorType::from_raw`.
unfoldable pub from_raw : ℕ → Loaded MarianTensorType
from_raw raw = elim (raw == type_int8) [
  | true ↦ ok int8
  | false ↦ elim (raw == type_float32) [
    | true ↦ ok float32
    | false ↦ elim (raw == type_intgemm8) [ true ↦ ok intgemm8 | false ↦ err invalid_format ]
  ]
]

pub data MarianTensorData (F32 : Type 0) : Type 0 where
  int8_data : List ℤ → MarianTensorData F32
  float32_data : List F32 → MarianTensorData F32
  intgemm8_data : List ℤ → F32 → MarianTensorData F32

pub record MarianTensor (F32 : Type 0) : Type 0 where
  pub name : Text
  pub tensor_type : MarianTensorType
  pub shape : List ℕ
  pub data_length : ℕ
  pub contents : MarianTensorData F32

-- `by_name` is the map from names to indices, in the order of the insertions.
pub record MarianBinaryModel (F32 : Type 0) : Type 0 where
  pub tensors : List (MarianTensor F32)
  pub by_name : List (Text × ℕ)

pub record Header : Type 0 where
  pub name_length : ℕ
  pub tensor_type : MarianTensorType
  pub shape_length : ℕ
  pub data_length : ℕ

-- `HashMap::get`.
unfoldable pub get_name : List (Text × ℕ) → Text → Option ℕ
unfolding text_eq
get_name [] name = none
get_name (entry ∷ entries) name =
    if text_eq entry.0 name then some entry.1 else get_name entries name

-- `usize::checked_mul`.
abbrev pub checked_mul : ℕ → ℕ → Option ℕ
checked_mul a b = if leb (a * b) usize_max then some (a * b) else none

-- `try_fold` with the elements so far.
unfoldable pub fold_elements : ℕ → List ℕ → Loaded ℕ
fold_elements elements [] = ok elements
fold_elements elements (dimension ∷ shape) =
    ok_or (checked_mul elements dimension) invalid_tensor >>= λ e. fold_elements e shape

unfoldable pub checked_elements : List ℕ → Loaded ℕ
unfolding fold_elements
checked_elements shape = fold_elements 1 shape

unfoldable pub logical_data_length : MarianTensorType → ℕ → Loaded ℕ
logical_data_length int8 elements = ok elements
logical_data_length float32 elements = ok_or (checked_mul elements 4) invalid_tensor
logical_data_length intgemm8 elements = ok_or (checked_add elements 4) invalid_tensor

unfoldable pub align_up : ℕ → ℕ → Option ℕ
align_up value alignment = elim (checked_add value (alignment - 1)) [
  | some n ↦ some (n / alignment * alignment)
  | none ↦ none
]

-- `from_le_bytes` of the unsigned integers.
unfoldable pub le_value : List ℕ → ℕ
le_value [] = 0
le_value (b ∷ bs) = b + 256 * le_value bs

-- Two's complement, on `2 ^ w` values.
abbrev pub signed : ℕ → ℕ → ℤ
signed half n = if ltb n half then pos n else negsuc (2 * half - suc n)

-- `Reader`: the file, and the position in it that each step passes on.
module _ (bytes : List ℕ) where
  -- `Reader::take`.
  unfoldable pub take_bytes : ℕ → ℕ → Loaded (List ℕ × ℕ)
  take_bytes position len = do
    end ← ok_or (checked_add position len) invalid_format
    fail_if (ltb (length bytes) end) invalid_format
    ok (take len (drop position bytes), end)

  unfoldable pub read_u64 : ℕ → Loaded (ℕ × ℕ)
  unfolding take_bytes le_value
  read_u64 position = take_bytes position 8 >>= λ r. ok (le_value r.0, r.1)

  -- A 64-bit number always fits a 64-bit `usize`.
  unfoldable pub read_usize_u64 : ℕ → Loaded (ℕ × ℕ)
  unfolding read_u64
  read_usize_u64 position = read_u64 position

  unfoldable pub read_i32 : ℕ → Loaded (ℤ × ℕ)
  unfolding take_bytes le_value
  read_i32 position = take_bytes position 4 >>= λ r. ok (signed (2 ^ 31) (le_value r.0), r.1)

  -- `Reader::remaining`, with the panic of a subtraction below 0.
  unfoldable pub remaining_bytes : ℕ → Option ℕ
  remaining_bytes position =
      if leb position (length bytes) then some (length bytes - position) else none
