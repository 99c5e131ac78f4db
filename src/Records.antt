-- ===== src/Records.antt =====
-- spsync/core/records: the blocks of a chain, the records in them and the envelopes of the servers.
-- The encrypted headers, initialisation vectors and trailing data stay closed to the server and are left out. A block
-- keeps its record as octets: to decode them, to hash a block and to verify a signature are the libraries'.
use spsync.Prelude.{ℕ, Bool, true, false, ◌&&◌, Option, List, [], ◌∷◌, ◌==◌, Octets, eq_octets}
use spsync.Divergence.{ChainBlockId}
use spsync.Descriptor.{DataDescriptor}
use spsync.Users.{Users}

pub data RecordTypeTag : Type 0 where
  user_change_tag data_change_tag segment_tag : RecordTypeTag

-- What the server reads of `record_base`.
pub record RecordBase : Type 0 where
  pub last_seen_block : ChainBlockId
  pub op_id : Octets
  pub last_seen_special_tag : Octets

pub record PlainSingleChange : Type 0 where
  pub id : Octets
  pub previous_oid_record_tag : Octets
  pub descriptor : Option DataDescriptor

pub record PlainSegment : Type 0 where
  pub segment_start : ℕ
  pub segment_end : ℕ
  pub tags : List Octets
  pub previous_segment_tag : Octets

pub data AnyRecord : Type 0 where
  user_change_record : RecordBase → Users → AnyRecord
  data_change_record : RecordBase → List PlainSingleChange → AnyRecord
  segment_record : RecordBase → PlainSegment → AnyRecord

abbrev pub base_of : AnyRecord → RecordBase
base_of (user_change_record base access) = base
base_of (data_change_record base changes) = base
base_of (segment_record base segment) = base

abbrev pub type_of : AnyRecord → RecordTypeTag
type_of (user_change_record base access) = user_change_tag
type_of (data_change_record base changes) = data_change_tag
type_of (segment_record base segment) = segment_tag

abbrev pub changes_of : AnyRecord → List PlainSingleChange
changes_of (user_change_record base access) = []
changes_of (data_change_record base changes) = changes
changes_of (segment_record base segment) = []

pub record Signature : Type 0 where
  pub issuer : Octets
  pub value : Octets

pub record ContentAuth : Type 0 where
  pub tag : Octets
  pub signature : Option Signature

pub record ChainBlock : Type 0 where
  pub record_bytes : Octets
  pub auth : ContentAuth
  pub sequence : ℕ
  pub parent_hash : Octets

-- A signature that is not valid is none.
pub record BlockEnvelope : Type 0 where
  pub block : ChainBlock
  pub origin : Octets
  pub term : ℕ
  pub signature : Option Signature

unfoldable pub is_special : RecordTypeTag → Bool
is_special user_change_tag = true
is_special data_change_tag = false
is_special segment_tag = true

unfoldable pub is_segment : RecordTypeTag → Bool
is_segment user_change_tag = false
is_segment data_change_tag = false
is_segment segment_tag = true

unfoldable pub eq_block_id : ChainBlockId → ChainBlockId → Bool
eq_block_id a b = a.sequence == b.sequence && eq_octets a.hash b.hash

unfoldable pub eq_tags : List Octets → List Octets → Bool
eq_tags [] [] = true
eq_tags [] (b ∷ bs) = false
eq_tags (a ∷ rest) [] = false
eq_tags (a ∷ rest) (b ∷ bs) = eq_octets a b && eq_tags rest bs
