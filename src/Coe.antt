-- ===== src/Coe.antt =====
-- soes/esc_coe.c: the SDO services of CANopen over EtherCAT, and the object handlers of soes/ecat_slv.c.
mod Reply
mod Access
mod Subindices
mod Upload
mod Download
mod CompleteDownload
mod DownloadSegments
mod Info
mod Process
pub mod Claims
pub mod Steps
pub mod Replies
pub mod Uploads
pub mod Downloads
pub mod SegmentDownloads
pub mod Listing
pub mod Serving
pub mod Answering
pub mod Stuck
pub mod Content
pub mod Holding
pub mod Payload
pub mod Segments
pub mod Sending
pub mod Delivery
pub mod Opening
pub mod Storing
pub mod Reading
unfoldable pub use Reply.*
unfoldable pub use Access.*
unfoldable pub use Subindices.*
unfoldable pub use Upload.*
unfoldable pub use Download.*
unfoldable pub use CompleteDownload.*
unfoldable pub use DownloadSegments.*
unfoldable pub use Info.*
unfoldable pub use Process.*
