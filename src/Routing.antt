-- ===== src/Routing.antt =====
-- internal/routing: types.go, the choice of router.go, and EntrySupports and EntrySupportsTools of
-- catalog.go. Reasons, hints and messages are text for people and are left out; the profile that
-- Analyze derives from the prompt and the rows of DefaultCatalog are arguments.
pub mod Scoring
pub mod Choosing
pub mod Gates
pub mod Ranking
pub mod Analysis
pub mod Grading
pub mod Catalog
pub mod Picking
pub mod Availability
pub mod Presence
