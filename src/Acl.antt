-- ===== src/Acl.antt =====
-- src/acl: the access control list.
pub mod SubDomainsTree
pub mod Externals
pub mod Rules
pub mod ParsingRules
pub mod AccessControl
pub mod Center
pub mod Reading
pub mod Contents
