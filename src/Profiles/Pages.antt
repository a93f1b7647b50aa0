-- ===== src/Profiles/Pages.antt =====
-- The public page of a profile: `serialize` and `getPublicProfile` of ProfileService.
pub mod Hidden
pub mod Cache
pub mod Private
use open_profile_be.Entities.Content.{ItemSection, ProfileContent}
use open_profile_be.Entities.Pages.{
  Award, Education, Profile, ProfileComponent, Skill, WorkExperience,
}
use open_profile_be.Entities.PublicProfiles.{
  PublicAward, PublicEducation, PublicProfile, PublicSkill, PublicWorkExperience, SectionMeta,
}
use open_profile_be.Prelude.{
  Bool, List, Option, String, [], false, first, if◌then◌else◌, keep, map, none, some, sort_rows,
  true, ◌==◌,
}
use open_profile_be.Profiles.Documents.{merged_content, without_disabled}

-- `components.find((c) => c.sectionType === type)`
abbrev pub has_section_type : String → ProfileComponent → Bool
has_section_type type c = c.section_type == type

abbrev pub is_false : Option Bool → Bool
is_false (some false) = true
is_false (some true) = false
is_false none = false

abbrev pub visible_of : Option ItemSection → Option Bool
visible_of none = none
visible_of (some s) = s.visible

-- `profile.content?.[contentVisibilityKey[type]]?.visible`
abbrev pub content_visible : ProfileContent → String → Option Bool
content_visible c type =
    if type == "work_experience"
    then visible_of c.work_experience_part
    else if type == "education"
    then visible_of c.education_part
    else if type == "skills"
    then visible_of c.skills_part
    else none

abbrev pub profile_visible : Option ProfileContent → String → Option Bool
profile_visible none type = none
profile_visible (some c) type = content_visible c type

-- A section without a component is enabled.
abbrev pub component_enabled : Option ProfileComponent → Bool
component_enabled none = true
component_enabled (some c) = c.is_enabled

unfoldable pub is_enabled : Profile → List ProfileComponent → String → Bool
is_enabled p components type =
    if is_false (profile_visible p.content type)
    then false
    else component_enabled (first (has_section_type type) components)

-- `if (enabled) data else []`
abbrev pub if_enabled : {A : Type 0} → Bool → List A → List A
if_enabled true rows = rows
if_enabled false rows = []

abbrev pub public_skill : Skill → PublicSkill
public_skill s = record {
  id = s.id;
  name = s.name;
  level = s.level;
  display_order = s.display_order;
}

abbrev pub public_education : Education → PublicEducation
public_education e = record {
  id = e.id;
  school = e.school;
  degree = e.degree;
  field_of_study = e.field_of_study;
  location = e.location;
  activities_honors = e.activities_honors;
  start_year = e.start_year;
  end_year = e.end_year;
  display_order = e.display_order;
}

abbrev pub public_work_experience : WorkExperience → PublicWorkExperience
public_work_experience w = record {
  id = w.id;
  company_name = w.company_name;
  job_title = w.job_title;
  location = w.location;
  description = w.description;
  start_month = w.start_month;
  start_year = w.start_year;
  end_month = w.end_month;
  end_year = w.end_year;
  is_current = w.is_current;
  display_order = w.display_order;
}

abbrev pub public_award : Award → PublicAward
public_award a = record {
  id = a.id;
  title = a.title;
  issuer = a.issuer;
  award_date = a.award_date;
  description = a.description;
  credential_url = a.credential_url;
  display_order = a.display_order;
}

abbrev pub section_meta : ProfileComponent → SectionMeta
section_meta c = record { section_type = c.section_type; display_order = c.display_order }

-- The enabled components, by display order.
unfoldable pub shown_sections : Profile → List ProfileComponent → List SectionMeta
unfolding is_enabled
shown_sections p components = map section_meta (
    sort_rows (λ c. c.display_order)
      (keep (λ c. is_enabled p components c.section_type) components))

unfoldable pub serialize :
    Profile
    → List Skill
    → List Education
    → List ProfileComponent
    → List WorkExperience
    → List Award
    → PublicProfile
unfolding shown_sections merged_content
serialize p skills education components work_experience awards = record {
  username = p.username;
  full_name = p.full_name;
  photo_url = p.photo_url;
  template_type = p.template_type;
  theme_settings = p.theme_settings;
  appearance = p.appearance;
  content = without_disabled p (is_enabled p components) (merged_content p);
  skills = if_enabled (is_enabled p components "skills") (map public_skill skills);
  education = if_enabled (is_enabled p components "education") (map public_education education);
  work_experience =
      if_enabled (is_enabled p components "work_experience")
        (map public_work_experience work_experience);
  awards = if_enabled (is_enabled p components "awards") (map public_award awards);
  sections = shown_sections p components;
}
