-- ===== src/Payload.antt =====
-- The messages of the generated package `otherlodepb`: the fields that the program reads or writes
-- through its accessors, with the zero value where one is unset; a list of which it reads only the
-- length is that length. All else that a message holds,
-- the unknown fields at every depth among it, is the tree `rest` that reflection walks.
pub mod Reflect
use yukon_collector.Base.{ℕ, Bool, Bytes, ℤ, List, Option}
use Reflect.{Message}

pub record Resource : Type 0 where
  pub service_namespace : Bytes
  pub service_name : Bytes
  pub service_instance_id : Bytes
  pub run_id : Bytes
  pub environment : Bytes
  pub test_run : Bool

-- The enum is open: `other` is the number of any further kind, known to the program or not.
pub data PartKind : Type 0 where
  code placeholder : PartKind
  other : ℕ → PartKind

pub record ConditionPart : Type 0 where
  pub kind : PartKind
  pub text : Bytes

pub record BranchOutcome : Type 0 where
  pub case_label : List ConditionPart

pub record BranchSite : Type 0 where
  pub condition : List ConditionPart
  pub outcomes : List BranchOutcome

pub record ProbeLocation : Type 0 where
  pub calls : ℕ
  pub referenced_classes : ℕ
  pub branch_sites : List BranchSite

pub record DeclaredMethod : Type 0 where
  pub calls : ℕ
  pub referenced_classes : ℕ
  pub branch_sites : List BranchSite

pub record DeclaredClass : Type 0 where
  pub methods : List DeclaredMethod
  pub referenced_classes : ℕ

pub record DeltaBatch : Type 0 where
  pub resource : Option Resource
  pub deltas : ℕ
  pub endpoint_deltas : ℕ
  pub dependency_deltas : ℕ
  pub rest : Message

pub record ProbeManifest : Type 0 where
  pub resource : Option Resource
  pub probes : List ProbeLocation
  pub class_locations : ℕ
  pub skipped_classes : ℕ
  pub endpoints : ℕ
  pub disabled_endpoint_modules : ℕ
  pub dependencies : ℕ
  pub class_references : ℕ
  pub external_classes : ℕ
  pub references_recorded : Bool
  pub dependencies_listed : Bool
  pub rest : Message

pub record StaticBaseline : Type 0 where
  pub resource : Option Resource
  pub scanned_at : ℤ
  pub chunk_index : ℤ
  pub chunk_count : ℤ
  pub declared_classes : List DeclaredClass
  pub statically_unsafe_classes : ℕ
  pub unreadable_classes : ℕ
  pub unprobed_classes : ℕ
  pub rest : Message
