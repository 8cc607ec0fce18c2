-- ===== src/Tests.antt =====
-- Tests of the definitions, and the theorems at concrete inputs.
mod Samples
mod ContentTests
mod AccessorTests
mod FieldTests
mod KeyTests
mod LevelTests
mod MembershipTests
mod AuthTests
mod ResolutionTests
mod NeededTests
mod ConflictTests
mod OrderTests
mod ChainTests
