-- ===== src/Delta/Kind.antt =====
-- core/domain/src/candidate.rs: `FileKind`, which the extension of a path tells.
use file_reaper.Prelude.{Option, none, some, List, [], ◌∷◌, if◌then◌else◌}
use file_reaper.Prelude.Text.{Text, codes}
use file_reaper.PathKey.{to_ascii_lowercase}
use file_reaper.Quarantine.Destination.{
  is_any_separator, is_dot, split_after_last, split_before_last,
}
use file_reaper.Index.Packing.{
  FileKind, video, image, audio, archive, installer, disk_image, document, other,
}
use file_reaper.Index.Memory.{has_text}

abbrev video_extensions : List Text
video_extensions =
    codes "mp4"
    ∷ codes "m4v"
    ∷ codes "mkv"
    ∷ codes "avi"
    ∷ codes "mov"
    ∷ codes "wmv"
    ∷ codes "flv"
    ∷ codes "webm"
    ∷ codes "mpg"
    ∷ codes "mpeg"
    ∷ codes "m2ts"
    ∷ codes "mts"
    ∷ codes "ts"
    ∷ codes "vob"
    ∷ codes "3gp"
    ∷ codes "3g2"
    ∷ codes "ogv"
    ∷ codes "rm"
    ∷ codes "rmvb"
    ∷ codes "divx"
    ∷ codes "f4v"
    ∷ codes "mxf"
    ∷ codes "asf"
    ∷ codes "braw"
    ∷ codes "r3d"
    ∷ []

abbrev image_extensions : List Text
image_extensions =
    codes "jpg"
    ∷ codes "jpeg"
    ∷ codes "jpe"
    ∷ codes "jfif"
    ∷ codes "png"
    ∷ codes "gif"
    ∷ codes "bmp"
    ∷ codes "dib"
    ∷ codes "tif"
    ∷ codes "tiff"
    ∷ codes "webp"
    ∷ codes "heic"
    ∷ codes "heif"
    ∷ codes "avif"
    ∷ codes "ico"
    ∷ codes "svg"
    ∷ codes "wmf"
    ∷ codes "emf"
    ∷ codes "psd"
    ∷ codes "ai"
    ∷ codes "eps"
    ∷ codes "cr2"
    ∷ codes "cr3"
    ∷ codes "nef"
    ∷ codes "arw"
    ∷ codes "dng"
    ∷ codes "orf"
    ∷ codes "rw2"
    ∷ codes "raf"
    ∷ codes "sr2"
    ∷ codes "pef"
    ∷ []

abbrev audio_extensions : List Text
audio_extensions =
    codes "mp3"
    ∷ codes "wav"
    ∷ codes "flac"
    ∷ codes "aac"
    ∷ codes "ogg"
    ∷ codes "oga"
    ∷ codes "m4a"
    ∷ codes "wma"
    ∷ codes "aiff"
    ∷ codes "aif"
    ∷ codes "alac"
    ∷ codes "opus"
    ∷ codes "mid"
    ∷ codes "midi"
    ∷ codes "ape"
    ∷ codes "wv"
    ∷ []

abbrev archive_extensions : List Text
archive_extensions =
    codes "zip"
    ∷ codes "rar"
    ∷ codes "7z"
    ∷ codes "tar"
    ∷ codes "gz"
    ∷ codes "tgz"
    ∷ codes "bz2"
    ∷ codes "tbz2"
    ∷ codes "xz"
    ∷ codes "txz"
    ∷ codes "zst"
    ∷ codes "cab"
    ∷ codes "arj"
    ∷ codes "lzh"
    ∷ codes "lha"
    ∷ codes "z"
    ∷ codes "lz4"
    ∷ []

abbrev installer_extensions : List Text
installer_extensions =
    codes "exe"
    ∷ codes "msi"
    ∷ codes "msix"
    ∷ codes "appx"
    ∷ codes "appxbundle"
    ∷ codes "msu"
    ∷ codes "apk"
    ∷ codes "aab"
    ∷ codes "deb"
    ∷ codes "rpm"
    ∷ codes "dmg"
    ∷ codes "pkg"
    ∷ []

abbrev disk_image_extensions : List Text
disk_image_extensions =
    codes "iso"
    ∷ codes "img"
    ∷ codes "vhd"
    ∷ codes "vhdx"
    ∷ codes "vmdk"
    ∷ codes "nrg"
    ∷ codes "mdf"
    ∷ codes "cue"
    ∷ []

abbrev document_extensions : List Text
document_extensions =
    codes "pdf"
    ∷ codes "doc"
    ∷ codes "docx"
    ∷ codes "dot"
    ∷ codes "dotx"
    ∷ codes "xls"
    ∷ codes "xlsx"
    ∷ codes "xlsm"
    ∷ codes "ppt"
    ∷ codes "pptx"
    ∷ codes "txt"
    ∷ codes "rtf"
    ∷ codes "odt"
    ∷ codes "ods"
    ∷ codes "odp"
    ∷ codes "csv"
    ∷ codes "tsv"
    ∷ codes "md"
    ∷ codes "markdown"
    ∷ codes "epub"
    ∷ codes "mobi"
    ∷ codes "azw3"
    ∷ codes "djvu"
    ∷ []

-- `FileKind::from_extension`
unfoldable pub from_extension : Text → FileKind
unfolding to_ascii_lowercase has_text
from_extension ext =
    let lower = to_ascii_lowercase ext in
    if has_text video_extensions lower
    then video
    else if has_text image_extensions lower
    then image
    else if has_text audio_extensions lower
    then audio
    else if has_text archive_extensions lower
    then archive
    else if has_text installer_extensions lower
    then installer
    else if has_text disk_image_extensions lower
    then disk_image
    else if has_text document_extensions lower
    then document
    else other

-- The extension in a name without separators: what stands behind the last dot, which is not in front.
unfoldable pub extension_in : Text → Option Text
unfolding split_before_last is_dot
extension_in name =
    let r = split_before_last is_dot name in
    elim r.0 [
      | [] ↦ none
      | c ∷ stem ↦ elim r.1 [
        | [] ↦ none
        | dot ∷ ext ↦ elim ext [ [] ↦ none | e ∷ es ↦ some (e ∷ es) ]
      ]
    ]

-- `extension_of`
unfoldable pub extension_of : Text → Option Text
unfolding extension_in split_after_last is_any_separator
extension_of path = extension_in (split_after_last is_any_separator path).1

-- `FileKind::from_path`
unfoldable pub from_path : Text → FileKind
unfolding extension_of from_extension
from_path path = elim (extension_of path) [ none ↦ other | some ext ↦ from_extension ext ]
