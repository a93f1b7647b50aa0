-- ===== src/Entities/Content.antt =====
-- The JSON documents of a profile: modules/profile/dto/profile-content.dto.ts and
-- modules/profile/dto/appearance-settings.dto.ts. A stored document may lack any part, so each
-- part is optional. A part that is null counts as absent.
use open_profile_be.Prelude.{Bool, List, Option, String, ℕ}

pub data SectionType : Type 0 where
  bio links projects cta work_experience education skills awards : SectionType

pub data CtaType : Type 0 where
  link cta_email phone whatsapp : CtaType

-- The fields that only the page's look depends on.
pub record SectionStyle : Type 0 where
  pub text_color : Option String
  pub icon_color : Option String
  pub padding_top : Option ℕ
  pub padding_bottom : Option ℕ

pub record BioSection : Type 0 where
  pub visible : Option Bool
  pub content : Option String
  pub style : SectionStyle

pub record LinkItem : Type 0 where
  pub id : String
  pub label : String
  pub url : String
  pub visible : Bool

pub record LinksSection : Type 0 where
  pub visible : Option Bool
  pub section_title : Option String
  pub items : Option (List LinkItem)
  pub style : SectionStyle

pub record ProjectItem : Type 0 where
  pub id : String
  pub title : String
  pub description : String
  pub repo_url : String
  pub live_url : Option String
  pub visible : Bool

pub record ProjectsSection : Type 0 where
  pub visible : Option Bool
  pub section_title : Option String
  pub items : Option (List ProjectItem)
  pub style : SectionStyle

-- `url` is the name that older documents have for `value`.
pub record CtaSection : Type 0 where
  pub visible : Option Bool
  pub cta_type : Option CtaType
  pub label : Option String
  pub value : Option String
  pub url : Option String
  pub title : Option String
  pub subtitle : Option String
  pub layout : Option String
  pub icon_id : Option String
  pub icon_src : Option String
  pub icon_label : Option String
  pub style : SectionStyle

pub record ItemSection : Type 0 where
  pub visible : Option Bool
  pub section_title : Option String
  pub style : SectionStyle

pub record ProfileContent : Type 0 where
  pub section_order : Option (List SectionType)
  pub bio_part : Option BioSection
  pub links_part : Option LinksSection
  pub projects_part : Option ProjectsSection
  pub cta_part : Option CtaSection
  pub work_experience_part : Option ItemSection
  pub education_part : Option ItemSection
  pub skills_part : Option ItemSection

pub record AppearanceStyle : Type 0 where
  pub template : Option String
  pub accent_colour : Option String
  pub background_colour : Option String
  pub text_colour : Option String
  pub font : Option String
  pub corner_style : Option String
  pub spacing : Option ℕ
  pub theme : Option String

pub record AppearanceComponents : Type 0 where
  pub bio_style : Option AppearanceStyle
  pub links_style : Option AppearanceStyle
  pub projects_style : Option AppearanceStyle
  pub cta_style : Option AppearanceStyle
  pub work_experience_style : Option AppearanceStyle
  pub education_style : Option AppearanceStyle
  pub skills_style : Option AppearanceStyle
  pub awards_style : Option AppearanceStyle

pub record AppearanceSettings : Type 0 where
  pub global : Option AppearanceStyle
  pub components : Option AppearanceComponents
