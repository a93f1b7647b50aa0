-- ===== src/Profiles/Documents.antt =====
-- The content document of a page: defaults, what the profile stores, and what is switched off.
use open_profile_be.Entities.Content.{
  BioSection, CtaSection, CtaType, LinksSection, ProfileContent, ProjectsSection, SectionStyle,
  SectionType,
}
use open_profile_be.Entities.Pages.{Profile}
use open_profile_be.Prelude.{
  Bool, List, Option, String, [], false, if◌then◌else◌, none, or_else, some, true, ◌∷◌,
}

-- The values of the enum SectionType.
abbrev pub section_type_text : SectionType → String
section_type_text SectionType.bio = "bio"
section_type_text SectionType.links = "links"
section_type_text SectionType.projects = "projects"
section_type_text SectionType.cta = "cta"
section_type_text SectionType.work_experience = "work_experience"
section_type_text SectionType.education = "education"
section_type_text SectionType.skills = "skills"
section_type_text SectionType.awards = "awards"

abbrev pub no_style : SectionStyle
no_style = record {
  text_color = none;
  icon_color = none;
  padding_top = none;
  padding_bottom = none;
}

-- `{ ...base, ...over }`
abbrev pub over_style : SectionStyle → SectionStyle → SectionStyle
over_style over base = record {
  text_color = or_else over.text_color base.text_color;
  icon_color = or_else over.icon_color base.icon_color;
  padding_top = or_else over.padding_top base.padding_top;
  padding_bottom = or_else over.padding_bottom base.padding_bottom;
}

abbrev pub over_bio : Option BioSection → BioSection → BioSection
over_bio none base = base
over_bio (some over) base = record {
  visible = or_else over.visible base.visible;
  content = or_else over.content base.content;
  style = over_style over.style base.style;
}

abbrev pub over_links : Option LinksSection → LinksSection → LinksSection
over_links none base = base
over_links (some over) base = record {
  visible = or_else over.visible base.visible;
  section_title = or_else over.section_title base.section_title;
  items = or_else over.items base.items;
  style = over_style over.style base.style;
}

abbrev pub over_projects : Option ProjectsSection → ProjectsSection → ProjectsSection
over_projects none base = base
over_projects (some over) base = record {
  visible = or_else over.visible base.visible;
  section_title = or_else over.section_title base.section_title;
  items = or_else over.items base.items;
  style = over_style over.style base.style;
}

abbrev pub over_cta : Option CtaSection → CtaSection → CtaSection
over_cta none base = base
over_cta (some over) base = record {
  visible = or_else over.visible base.visible;
  cta_type = or_else over.cta_type base.cta_type;
  label = or_else over.label base.label;
  value = or_else over.value base.value;
  url = or_else over.url base.url;
  title = or_else over.title base.title;
  subtitle = or_else over.subtitle base.subtitle;
  layout = or_else over.layout base.layout;
  icon_id = or_else over.icon_id base.icon_id;
  icon_src = or_else over.icon_src base.icon_src;
  icon_label = or_else over.icon_label base.icon_label;
  style = over_style over.style base.style;
}

abbrev pub default_order : List SectionType
default_order = SectionType.bio ∷ SectionType.links ∷ SectionType.projects ∷ SectionType.cta ∷ []

-- `text ?? ''`
abbrev pub or_empty : Option String → Option String
or_empty none = some ""
or_empty (some s) = some s

abbrev pub default_bio : Profile → BioSection
default_bio p = record { visible = some true; content = or_empty p.bio; style = no_style }

abbrev pub default_links : LinksSection
default_links = record {
  visible = some true;
  section_title = some "Links";
  items = some [];
  style = no_style;
}

abbrev pub default_projects : ProjectsSection
default_projects = record {
  visible = some true;
  section_title = some "Projects";
  items = some [];
  style = no_style;
}

-- A null icon counts as absent.
abbrev pub default_cta : Profile → CtaSection
default_cta p = record {
  visible = some true;
  cta_type = some CtaType.link;
  label = or_empty p.cta_label;
  value = p.cta_url;
  url = none;
  title = some "Let's build something";
  subtitle = some "";
  layout = some "1";
  icon_id = none;
  icon_src = none;
  icon_label = none;
  style = no_style;
}

abbrev pub stored_type : Option CtaSection → Option CtaType
stored_type none = none
stored_type (some c) = c.cta_type

abbrev pub is_email_type : Option CtaType → Bool
is_email_type (some CtaType.cta_email) = true
is_email_type _ = false

-- `rawCta.type === EMAIL ? rawCta.value ?? null : rawCta.value ?? rawCta.url ?? null`
abbrev pub stored_value : Option CtaSection → Option String
stored_value none = none
stored_value (some c) = if is_email_type c.cta_type then c.value else or_else c.value c.url

-- The CTA, with its type and its value from what is stored.
abbrev pub resolved_cta : Option CtaSection → CtaSection → CtaSection
resolved_cta raw base = record (over_cta raw base) {
  cta_type = or_else (stored_type raw) (some CtaType.link);
  value = stored_value raw;
}

abbrev pub no_content : ProfileContent
no_content = record {
  section_order = none;
  bio_part = none;
  links_part = none;
  projects_part = none;
  cta_part = none;
  work_experience_part = none;
  education_part = none;
  skills_part = none;
}

abbrev pub or_no_content : Option ProfileContent → ProfileContent
or_no_content none = no_content
or_no_content (some c) = c

-- `content` of `serialize`, before the disabled sections are stripped.
unfoldable pub merged_content : Profile → ProfileContent
merged_content p =
    let c = or_no_content p.content in
    record {
      section_order = or_else c.section_order (some default_order);
      bio_part = some (over_bio c.bio_part (default_bio p));
      links_part = some (over_links c.links_part default_links);
      projects_part = some (over_projects c.projects_part default_projects);
      cta_part = some (resolved_cta c.cta_part (default_cta p));
      work_experience_part = c.work_experience_part;
      education_part = c.education_part;
      skills_part = c.skills_part;
    }

abbrev pub hidden_bio : Profile → BioSection
hidden_bio p = record (default_bio p) { visible = some false; content = some "" }

abbrev pub hidden_links : LinksSection
hidden_links = record default_links { visible = some false; items = some [] }

abbrev pub hidden_projects : ProjectsSection
hidden_projects = record default_projects { visible = some false; items = some [] }

abbrev pub hidden_cta : Profile → CtaSection
hidden_cta p = record (default_cta p) { visible = some false; value = none }

abbrev pub unless_disabled : {A : Type 0} → Bool → A → Option A → Option A
unless_disabled true blank part = part
unless_disabled false blank part = some blank

-- The four sections whose data is in the content are blank where they are disabled.
abbrev pub without_disabled : Profile → (String → Bool) → ProfileContent → ProfileContent
without_disabled p enabled c = record c {
  bio_part = unless_disabled (enabled "bio") (hidden_bio p) c.bio_part;
  links_part = unless_disabled (enabled "links") hidden_links c.links_part;
  projects_part = unless_disabled (enabled "projects") hidden_projects c.projects_part;
  cta_part = unless_disabled (enabled "cta") (hidden_cta p) c.cta_part;
}
