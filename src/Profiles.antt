-- ===== src/Profiles.antt =====
-- ProfileService (modules/profile/profile.service.ts).
pub mod Sections
pub mod Reorder
pub mod Skills
pub mod EducationEntries
pub mod WorkExperienceEntries
pub mod Awards
pub mod Components
pub mod Documents
pub mod Pages
pub mod Visibility
pub mod Creation
pub mod Links
pub mod Drafts
pub mod Precedence
pub mod Publishing
pub mod Appearance
pub mod Contents
