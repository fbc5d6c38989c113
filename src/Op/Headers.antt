-- ===== src/Op/Headers.antt =====
-- `GetFinalizedL1` of op/op_streamer.go: a switch over the header versions of the Espresso SDK.
use espresso_streamers.Base.{Option, none}

-- A header of one of the versions that are told apart, with its pointer to the finalized L1 block,
-- of which the type is the argument; or of another version.
pub data HeaderImpl (L1BlockInfo : Type 0) : Type 0 where
  header0_1 header0_2 header0_3 : Option L1BlockInfo → HeaderImpl L1BlockInfo
  unsupported : HeaderImpl L1BlockInfo

-- `none` is a panic: the version is not supported, or the pointer is nil.
unfoldable pub get_finalized_l1 : {I : Type 0} → HeaderImpl I → Option I
get_finalized_l1 (header0_1 l1_finalized) = l1_finalized
get_finalized_l1 (header0_2 l1_finalized) = l1_finalized
get_finalized_l1 (header0_3 l1_finalized) = l1_finalized
get_finalized_l1 unsupported = none
