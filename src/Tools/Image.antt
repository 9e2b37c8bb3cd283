-- ===== src/Tools/Image.antt =====
-- The tool that makes an image (cli/tools/executor.go): `imageGenerate`, `fallbackSVG`, `xmlEscape`.
use Prim.Native.Char.{Char, code}
use Prim.Native.Nat.{min}
use xclaw.Prelude.{
  ℕ, ◌-◌, ◌/◌, ◌&&◌, List, [], ◌∷◌, Option, none, some, String, str_eq, to_lower, contains_text,
  trim_space, show_decimal, ◌<>◌, leb, ◌==◌, if◌then◌else◌,
}
use xclaw.Prelude.Dict.{Dict}
use xclaw.Prelude.Int.{ℤ, pos, negsuc}
use xclaw.Prelude.Parse.{split_once, atoi}
use xclaw.Prelude.Result.{Result, ok, err}
use xclaw.Approval.Lists.{first_non_empty}
use xclaw.Tools.World.{Outside, ImageData}
use xclaw.Tools.Result.{param_of, trimmed_param, trim_text}
use xclaw.Tools.Subagents.{join_path}

-- One character of strings.NewReplacer.
abbrev escape_char : Char → String
escape_char c =
    if code c == 38
    then "&amp;"
    else if code c == 60
    then "&lt;"
    else if code c == 62
    then "&gt;"
    else if code c == 34
    then "&quot;"
    else if code c == 39
    then "&#39;"
    else String.◌∷◌ c ""

unfoldable pub xml_escape : String → String
xml_escape String.[] = ""
xml_escape (String.◌∷◌ c s) = escape_char c <> xml_escape s

-- A side of the image that is read and between the bounds.
abbrev side_or : ℕ → Option ℤ → ℕ
side_or old none = old
side_or old (some (negsuc n)) = old
side_or old (some (pos n)) = if leb 128 n && leb n 2048 then n else old

abbrev sides : Option (String × String) → ℕ × ℕ
sides none = (1024, 1024)
sides (some (w, h)) = (side_or 1024 (atoi (trim_space w)), side_or 1024 (atoi (trim_space h)))

-- The image's width and height; the separator is the letter x.
unfoldable pub image_size : String → ℕ × ℕ
image_size size = sides (split_once 120 size)

-- fmt's %d for the difference, which may be negative.
abbrev less : ℕ → ℕ → String
less a b = if leb b a then show_decimal (a - b) else "-" <> show_decimal (b - a)

unfoldable pub fallback_svg : String → String → String → String
unfolding image_size xml_escape
fallback_svg prompt size style =
    let (w, h) = image_size size in
    let accent = if contains_text (to_lower style) "warm" then "#D96B2B" else "#2E7DD1" in
    let escaped = xml_escape (trim_text prompt 220) in
    let n = show_decimal in
    "<svg xmlns=\"http://www.w3.org/2000/svg\" width=\""
    <> n w
    <> "\" height=\""
    <> n h
    <> "\" viewBox=\"0 0 "
    <> n w
    <> " "
    <> n h
    <> "\">\n  <defs>\n"
    <> "    <linearGradient id=\"g\" x1=\"0\" y1=\"0\" x2=\"1\" y2=\"1\">\n"
    <> "      <stop offset=\"0%\" stop-color=\"#0F172A\"/>\n"
    <> "      <stop offset=\"100%\" stop-color=\""
    <> accent
    <> "\"/>\n"
    <> "    </linearGradient>\n  </defs>\n"
    <> "  <rect width=\"100%\" height=\"100%\" fill=\"url(#g)\"/>\n"
    <> "  <circle cx=\""
    <> less w 180
    <> "\" cy=\""
    <> less h 180
    <> "\" r=\""
    <> n (min w h / 4)
    <> "\" fill=\"rgba(255,255,255,0.08)\"/>\n"
    <> "  <text x=\"48\" y=\"80\" fill=\"#F8FAFC\" font-size=\"34\" font-family=\"monospace\">"
    <> "AI Generated (fallback)</text>\n"
    <> "  <foreignObject x=\"48\" y=\"120\" width=\""
    <> less w 96
    <> "\" height=\""
    <> less h 180
    <> "\">\n"
    <> "    <div xmlns=\"http://www.w3.org/1999/xhtml\" style=\"font: 24px sans-serif; color: #E2E8F0; "
    <> "line-height: 1.4;\">"
    <> escaped
    <> "</div>\n  </foreignObject>\n</svg>"

abbrev some_text : String → String → Dict String
some_text key text = if str_eq text "" then [] else (key, text) ∷ []

module _ {W : Type 0} (out : Outside W) (now : ℕ → ℕ) where
  abbrev image_reply : List (String × String) → Result String String
  image_reply fields = ok (out.object_json fields)

  -- The image in the provider's answer is written to a file; `none` where it cannot be.
  unfoldable pub store_image : String → ImageData → W → Option (Result String String) × W
  store_image path image w = elim (out.decode_base64 image.b64_json) [
    | none ↦ (none, w)
    | some bytes ↦ written (out.write_file path bytes w)
  ]
    where
      written : Option String × W → Option (Result String String) × W
      written (some error, w) = (none, w)
      written (none, w) = (
        some (
            image_reply (
              ("mode", "openai") ∷ ("path", path) ∷ ("revised_prompt", image.revised_prompt) ∷ [])),
        w,
      )

  -- What comes of the provider's image: its bytes first, then its address.
  abbrev by_address :
      ImageData → Option (Result String String) × W → Option (Result String String) × W
  by_address image (some reply, w) = (some reply, w)
  by_address image (none, w) = if str_eq image.url "" then (none, w) else (
    some (
        image_reply (
          ("mode", "openai") ∷ ("url", image.url) ∷ ("revised_prompt", image.revised_prompt) ∷ [])),
    w,
  )

  unfoldable pub use_image : String → Option ImageData × W → Option (Result String String) × W
  unfolding store_image
  use_image path (none, w) = (none, w)
  use_image path (some image, w) =
      by_address image (if str_eq image.b64_json "" then (none, w) else store_image path image w)

  -- The drawing that stands in for an image.
  abbrev drawn :
      String
      → String
      → String
      → String
      → Option (Result String String) × W
      → Result String String × W
  drawn path prompt size style (some reply, w) = (reply, w)
  drawn path prompt size style (none, w) =
      saved (out.write_file path (fallback_svg prompt size style) w)
    where
      saved : Option String × W → Result String String × W
      saved (some error, w) = (err error, w)
      saved (none, w) =
          (image_reply (("mode", "local-svg") ∷ ("path", path) ∷ ("prompt", prompt) ∷ []), w)

  abbrev in_directory : String → Dict String → String → Option String × W → Result String String × W
  in_directory dir params prompt (some error, w) = (err error, w)
  in_directory dir params prompt (none, w) =
      let model = first_non_empty (param_of params "model" ∷ "gpt-image-1" ∷ []) in
      let size = first_non_empty (param_of params "size" ∷ "1024x1024" ∷ []) in
      let style = trimmed_param params "style" in
      let base = join_path dir ("img_" <> show_decimal (now 2)) in
      let key = first_non_empty (param_of params "api_key" ∷ out.api_key ∷ []) in
      let payload : Dict String =
        ("model", model) ∷ ("prompt", prompt) ∷ ("size", size) ∷ some_text "style" style in
      drawn (base <> ".svg") prompt size style (
        if str_eq key ""
        then (none, w)
        else use_image (base <> ".png") (out.request_image payload key w))

  unfoldable pub image_generate : String → Dict String → W → Result String String × W
  unfolding use_image fallback_svg
  image_generate workspace params w =
      let prompt = trimmed_param params "prompt" in
      let dir = join_path workspace "generated" in
      if str_eq prompt ""
      then (err "prompt is required", w)
      else in_directory dir params prompt (out.mkdir_all dir w)
