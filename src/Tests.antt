-- ===== src/Tests.antt =====
-- The theorems at concrete inputs, and runs of the model that can be followed in the source.
mod PartyTests
mod MatchingTests
mod ProposalTests
mod ServerTests
mod ServiceTests
mod AuthorityTests
mod RequestTests
mod MatchTests
mod ClientTests
mod AdapterTests
