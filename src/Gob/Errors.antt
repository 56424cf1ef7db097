-- ===== src/Gob/Errors.antt =====
-- The errors of the change log and of the build finder (pkg/utils/changelogerror.go).
use cos_tools.Base.{
  Bool, true, false, ◌||◌, Option, none, some, List, [], ◌∷◌, ◌++◌, drop, ◌==◌, if◌then◌else◌,
}
use cos_tools.Text.{Bytes, codes, eqb, join, has_prefix, is_digit}

pub record ChangelogError : Type 0 where
  pub http_code : Bytes
  pub header : Bytes
  pub text : Bytes
  pub html_text : Bytes
  pub retryable : Bool

-- `HTMLError`
abbrev pub html_error : ChangelogError → Bytes
html_error e = or_text e.html_text
  where
    or_text : Bytes → Bytes
    or_text [] = e.text
    or_text (c ∷ t) = c ∷ t

abbrev pub forbidden_error : ChangelogError
forbidden_error = record {
  http_code = codes "403";
  header = codes "No Access";
  text =
      codes "This account does not have access to internal repositories. "
      ++ codes "Please retry with an authorized account, or select the external button to query "
      ++ codes "from publically accessible sources.";
  html_text = [];
  retryable = false;
}

abbrev pub internal_server_error : ChangelogError
internal_server_error = record {
  http_code = codes "500";
  header = codes "Internal Server Error";
  text = codes "An unexpected error occurred while retrieving the requested information.";
  html_text = [];
  retryable = false;
}

abbrev pub words : List Bytes → Bytes
words parts = join parts b' '

abbrev pub crosland_link : Bytes → Bytes → Bytes → Bytes
crosland_link crosland_url source target =
    crosland_url ++ codes "/log/" ++ source ++ codes ".." ++ target

unfoldable pub both_builds_not_found :
    (crosland_url source target source_num target_num : Bytes) → ChangelogError
unfolding join
both_builds_not_found crosland_url source target source_num target_num =
    let link = crosland_link crosland_url source_num target_num in
    record {
      http_code = codes "404";
      header = codes "Build Not Found";
      text = words (
          codes "The builds associated with input"
          ∷ source
          ∷ codes "and"
          ∷ target
          ∷ codes
              "cannot be found. It may be possible that the inputs are either invalid or both belong"
          ∷ codes
              "to pre-Cusky builds. If both of the inputs belong to pre-Cusky builds, note that this tool only supports changelogs"
          ∷ codes
              "between Cusky builds. Otherwise, please input valid build numbers (example: 13310.1035.0) or valid image names"
          ∷ codes "(example: cos-rc-85-13310-1034-0)."
          ∷ []);
      html_text =
          codes "The builds associated with input "
          ++ source
          ++ codes " and "
          ++ target
          ++ codes " could not be found.<br><br>"
          ++ codes
              "It may be possible that the inputs are either invalid or both belong to pre-Cusky builds. "
          ++ codes "If both of the inputs belong to pre-Cusky builds, please check <a href="
          ++ link
          ++ codes " target=\"_blank\">"
          ++ link
          ++ codes "</a>. Otherwise, please input valid build numbers "
          ++ codes
              "(example: 13310.1035.0) or valid image names (example: cos-rc-85-13310-1034-0).";
      retryable = false;
    }

unfoldable pub build_not_found : Bytes → ChangelogError
build_not_found build_number =
    let hint =
      codes
        "pre-Cusky build. If you entered a pre-Cusky build number or image name, note that changelog between pre-Cusky and Cusky builds are not supported. Otherwise, please input a valid build number (example: 13310.1035.0) or a valid image name (example: cos-rc-85-13310-1034-0)." in
    record {
      http_code = codes "404";
      header = codes "Build Not Found";
      text =
          codes "The build associated with input "
          ++ build_number
          ++ codes
              " cannot be found. It may be possible that the input is either invalid or belongs to a "
          ++ hint;
      html_text =
          codes "The build associated with input "
          ++ build_number
          ++ codes
              " cannot be found.<br><br>It may be possible that either the input is either invalid or belongs to a "
          ++ hint;
      retryable = false;
    }

abbrev pub cl_link : Bytes → Bytes → Bytes
cl_link cl_id instance_url =
    codes "<a href=\""
    ++ instance_url
    ++ codes "/c/"
    ++ cl_id
    ++ codes "\" target=\"_blank\">CL "
    ++ cl_id
    ++ codes "</a>"

abbrev pub about_cl : Bytes → Bytes
about_cl cl_id = codes "CL " ++ cl_id

unfoldable pub cl_not_found : Bytes → ChangelogError
cl_not_found cl_id = record {
  http_code = codes "404";
  header = codes "CL Not Found";
  text =
      codes "No CL was found matching the identifier: "
      ++ cl_id
      ++ codes
          ". Please enter either the CL-number (example: 3206) or a Commit-SHA (example: I7e549d7753cc7acec2b44bb5a305347a97719ab9) of a submitted CL.";
  html_text = [];
  retryable = false;
}

-- The only error that a larger search range may resolve.
unfoldable pub cl_landing_not_found : Bytes → Bytes → ChangelogError
cl_landing_not_found cl_id instance_url = record {
  http_code = codes "406";
  header = codes "No Build Found";
  text = codes "No build was found containing " ++ about_cl cl_id ++ codes ".";
  html_text = codes "No build was found containing " ++ cl_link cl_id instance_url ++ codes ".";
  retryable = true;
}

unfoldable pub cl_not_used : (cl_id repo branch instance_url : Bytes) → ChangelogError
cl_not_used cl_id repo branch instance_url =
    let rest =
      codes " modifies the "
      ++ repo
      ++ codes " repository on the "
      ++ branch
      ++ codes " branch, which has not been used in COS builds since the CL's submission." in
    record {
      http_code = codes "406";
      header = codes "CL Not Used";
      text = about_cl cl_id ++ rest;
      html_text = cl_link cl_id instance_url ++ rest;
      retryable = false;
    }

unfoldable pub cl_too_recent : Bytes → Bytes → ChangelogError
cl_too_recent cl_id instance_url =
    let rest =
      codes
        " was submitted too recently to be included in any builds. Please wait a couple hours and try again." in
    record {
      http_code = codes "406";
      header = codes "CL Too Recent";
      text = about_cl cl_id ++ rest;
      html_text = cl_link cl_id instance_url ++ rest;
      retryable = false;
    }

unfoldable pub cl_not_submitted : Bytes → Bytes → ChangelogError
cl_not_submitted cl_id instance_url =
    let rest =
      codes
        " has not been submitted yet. A CL will not enter any build until it is successfully submitted." in
    record {
      http_code = codes "406";
      header = codes "CL Not Submitted";
      text = about_cl cl_id ++ rest;
      html_text = cl_link cl_id instance_url ++ rest;
      retryable = false;
    }

unfoldable pub cl_invalid_release : (cl_id release instance_url : Bytes) → ChangelogError
cl_invalid_release cl_id release instance_url =
    let rest = codes " maps to release " ++ release ++ codes ", which is not a valid release" in
    record {
      http_code = codes "406";
      header = codes "Invalid Release Branch";
      text = about_cl cl_id ++ rest;
      html_text = cl_link cl_id instance_url ++ rest;
      retryable = false;
    }

-- The status codes of grpc.
pub data RpcCode : Type 0 where
  canceled unknown invalid_argument deadline_exceeded not_found already_exists : RpcCode
  permission_denied resource_exhausted failed_precondition aborted out_of_range : RpcCode
  unimplemented internal unavailable data_loss unauthenticated : RpcCode

-- What a Go error comes to for its readers: the status of the innermost error, if it is one of a
-- remote call, with its message.
abbrev pub GoError : Type 0
GoError = Option (RpcCode × Bytes)

unfoldable pub grpc_code_to_http : RpcCode → Option Bytes
grpc_code_to_http unknown = some (codes "500")
grpc_code_to_http invalid_argument = some (codes "400")
grpc_code_to_http not_found = some (codes "404")
grpc_code_to_http permission_denied = some (codes "403")
grpc_code_to_http unauthenticated = some (codes "401")
grpc_code_to_http resource_exhausted = some (codes "429")
grpc_code_to_http failed_precondition = some (codes "400")
grpc_code_to_http out_of_range = some (codes "400")
grpc_code_to_http internal = some (codes "500")
grpc_code_to_http unavailable = some (codes "503")
grpc_code_to_http data_loss = some (codes "500")
grpc_code_to_http _ = none

abbrev pub gitiles_403_message : Bytes
gitiles_403_message = codes "unexpected HTTP 403 from Gitiles"

-- A 403 of Gitiles comes as an internal error.
unfoldable pub reclassify : RpcCode → Bytes → RpcCode
reclassify internal text = if eqb text gitiles_403_message then permission_denied else internal
reclassify code text = code

abbrev pub or_500 : Option Bytes → Bytes
or_500 none = codes "500"
or_500 (some http) = http

unfoldable pub gitiles_err_code : GoError → Bytes
gitiles_err_code none = codes "500"
gitiles_err_code (some (code, text)) = or_500 (grpc_code_to_http (reclassify code text))

-- The first match of `status code\s*(\d+)`.
abbrev pub skip_blanks : Bytes → Bytes
skip_blanks [] = []
skip_blanks (c ∷ s) =
    let rest = skip_blanks s in
    if c == b' ' || c == 9 || c == 10 || c == 12 || c == 13 then rest else c ∷ s

unfoldable pub leading_digits : Bytes → Bytes
leading_digits [] = []
leading_digits (c ∷ s) = let rest = leading_digits s in if is_digit c then c ∷ rest else []

abbrev pub some_digits : Bytes → Option Bytes
some_digits [] = none
some_digits (c ∷ s) = some (c ∷ s)

abbrev pub number_behind : Bytes → Option Bytes
number_behind s =
    if has_prefix (codes "status code") s
    then some_digits (leading_digits (skip_blanks (drop 11 s)))
    else none

unfoldable pub find_status : Bytes → Option Bytes
find_status [] = none
find_status (c ∷ s) =
    let rest = find_status s in elim (number_behind (c ∷ s)) [ some d ↦ some d | none ↦ rest ]

-- Of the text of the innermost error.
unfoldable pub gerrit_err_code : Bytes → Bytes
gerrit_err_code text = or_500 (find_status text)
