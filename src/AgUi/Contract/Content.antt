-- ===== src/AgUi/Contract/Content.antt =====
-- The content of a user message of ui/ag-ui/contract.ts. A tag with one value, such as `type`, is the constructor of
-- the union, `unknown` is any value, and a number is a count or a time.
use chanx_kit.Prelude.{Field, List, String, Unknown}

-- Inline base64-encoded source.
pub record InputContentDataSource : Type 0 where
  pub value : String
  pub mime_type : String

-- URL-referenced source.
pub record InputContentUrlSource : Type 0 where
  pub value : String
  pub mime_type : Field String

pub data InputSource : Type 0 where
  data_source : InputContentDataSource → InputSource
  url_source : InputContentUrlSource → InputSource

-- A text fragment in a multimodal user message.
pub record TextInputContent : Type 0 where
  pub text : String

-- An image input content fragment.
pub record ImageInputContent : Type 0 where
  pub source : InputSource
  pub metadata : Field Unknown

-- An audio input content fragment.
pub record AudioInputContent : Type 0 where
  pub source : InputSource
  pub metadata : Field Unknown

-- A video input content fragment.
pub record VideoInputContent : Type 0 where
  pub source : InputSource
  pub metadata : Field Unknown

-- A document input content fragment.
pub record DocumentInputContent : Type 0 where
  pub source : InputSource
  pub metadata : Field Unknown

-- A deprecated binary payload reference in a multimodal user message.
pub record BinaryInputContent : Type 0 where
  pub mime_type : String
  pub id : Field String
  pub url : Field String
  pub data_value : Field String
  pub filename : Field String

pub data InputContent : Type 0 where
  text : TextInputContent → InputContent
  image : ImageInputContent → InputContent
  audio : AudioInputContent → InputContent
  video : VideoInputContent → InputContent
  document : DocumentInputContent → InputContent
  binary : BinaryInputContent → InputContent

pub data UserContent : Type 0 where
  plain : String → UserContent
  parts : List InputContent → UserContent
