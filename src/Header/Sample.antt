-- ===== src/Header/Sample.antt =====
-- A concrete `uuid` crate.
use garuda_codec.Base.{replicate, refl, some}
use garuda_codec.Header.{UuidCrate, IsUuid}

-- Identifiers of which there is one.
abbrev pub single : UuidCrate
single = record { Uuid = Unit {0}; as_bytes = λ u. replicate 16 7; from_slice = λ bytes. some tt }

pub single-IsUuid : IsUuid single
single-IsUuid = record { length-as_bytes = λ u. refl; from_slice-as_bytes = λ u. refl }
