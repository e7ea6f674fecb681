-- ===== src/Desktop/Entry.antt =====
-- server/internal/desktop/entry.go: the entry record and its type names.
use remote_app_start_my_linu.Prelude.{Bytes, codes, Bool, false, List, []}

pub record Entry : Type 0 where
  pub id : Bytes
  pub name : Bytes
  pub generic_name : Bytes
  pub comment : Bytes
  pub exec : Bytes
  pub try_exec : Bytes
  pub icon : Bytes
  pub terminal : Bool
  pub type : Bytes
  pub categories : List Bytes
  pub keywords : List Bytes
  pub no_display : Bool
  pub hidden : Bool
  pub only_show_in : List Bytes
  pub not_show_in : List Bytes
  pub startup_notify : Bool
  pub startup_wm_class : Bytes
  pub path : Bytes
  pub url : Bytes

abbrev pub type_application : Bytes
type_application = codes "Application"

abbrev pub type_link : Bytes
type_link = codes "Link"

abbrev pub type_directory : Bytes
type_directory = codes "Directory"

-- `&Entry{}`
abbrev pub empty_entry : Entry
empty_entry = record {
  id = [];
  name = [];
  generic_name = [];
  comment = [];
  exec = [];
  try_exec = [];
  icon = [];
  terminal = false;
  type = [];
  categories = [];
  keywords = [];
  no_display = false;
  hidden = false;
  only_show_in = [];
  not_show_in = [];
  startup_notify = false;
  startup_wm_class = [];
  path = [];
  url = [];
}
