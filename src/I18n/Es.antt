-- ===== src/I18n/Es.antt =====
-- The bundle of web/src/i18n/es.ts.
use pier_s3_gateway.Prelude.{[], ◌∷◌}
use pier_s3_gateway.I18n.{Bundle}

unfoldable pub bundle : Bundle
bundle =
    (
      "common",
      ("appName", "Pier S3")
          ∷ ("nativeName", "Español")
          ∷ ("size", "Tamaño")
          ∷ ("name", "Nombre")
          ∷ ("lastModified", "Última modificación")
          ∷ ("actions", "Acciones")
          ∷ ("cancel", "Cancelar")
          ∷ ("delete", "Eliminar")
          ∷ ("download", "Descargar")
          ∷ ("info", "Información")
          ∷ ("retry", "Reintentar")
          ∷ ("loadMore", "Cargar más")
          ∷ ("search", "Buscar por nombre...")
          ∷ ("empty", "Aún no hay nada aquí")
          ∷ ("downloadFile", "Descargar {{name}}")
          ∷ ("moreActions", "Más acciones para {{name}}")
          ∷ ("openFolder", "Abrir carpeta {{name}}")
          ∷ ("showInfo", "Mostrar información de {{name}}")
          ∷ ("objects", "{{count}} objetos")
          ∷ ("objects_one", "{{count}} objeto")
          ∷ ("objects_other", "{{count}} objetos")
          ∷ ("dash", "-")
          ∷ ("language", "Idioma")
          ∷ [],
    )
    ∷ (
      "nav",
      ("buckets", "Buckets")
          ∷ ("allBuckets", "Todos los buckets")
          ∷ ("menu", "Abrir menú")
          ∷ ("resize", "Redimensionar la barra lateral")
          ∷ [],
    )
    ∷ (
      "theme",
      ("label", "Tema") ∷ ("system", "Sistema") ∷ ("light", "Claro") ∷ ("dark", "Oscuro") ∷ [],
    )
    ∷ (
      "auth",
      ("title", "Pier S3")
          ∷ ("subtitle", "Inicia sesión para acceder a tu almacenamiento.")
          ∷ ("signIn", "Iniciar sesión con Keycloak")
          ∷ ("logout", "Cerrar sesión")
          ∷ [],
    )
    ∷ (
      "buckets",
      ("title", "Buckets")
          ∷ ("readWrite", "R/W")
          ∷ ("read", "R")
          ∷ ("writeOnly", "W")
          ∷ ("access", "Acceso")
          ∷ ("quotaUsage", "{{used}} de {{quota}} usados")
          ∷ [],
    )
    ∷ (
      "browser",
      ("upload", "Subir")
          ∷ ("dropHint", "Arrastra archivos aquí o haz clic para seleccionar")
          ∷ ("dropSubHint", "Tus archivos se subirán a esta carpeta")
          ∷ ("deleteTitle", "Confirmar eliminación")
          ∷ ("deleteConfirm", "¿Eliminar el archivo \"{{name}}\"?")
          ∷ (
            "searchTruncated",
            "La búsqueda solo cubre los objetos cargados. Haz clic en \"Cargar más\" para ampliar la selección.",
          )
          ∷ ("emptyTitle", "Esta carpeta está vacía")
          ∷ ("emptyHint", "Sube archivos para empezar")
          ∷ ("writeOnlyTitle", "Bucket solo de subida")
          ∷ (
            "writeOnlyHint",
            "Aquí puedes subir archivos, pero listar y descargar no está permitido para tu nivel de acceso.",
          )
          ∷ [],
    )
    ∷ (
      "meta",
      ("title", "Metadatos del objeto")
          ∷ ("key", "Clave")
          ∷ ("contentType", "Content-Type")
          ∷ ("size", "Tamaño")
          ∷ ("etag", "ETag")
          ∷ ("lastModified", "Última modificación")
          ∷ [],
    )
    ∷ (
      "preview",
      ("title", "Vista previa")
          ∷ ("open", "Vista previa de {{name}}")
          ∷ ("unsupported", "La vista previa no está disponible para este tipo de archivo")
          ∷ ("tooLarge", "El archivo es demasiado grande para la vista previa")
          ∷ ("downloadToView", "Descárgalo para verlo")
          ∷ ("failed", "No se pudo cargar la vista previa")
          ∷ ("modeRendered", "Renderizado")
          ∷ ("modeSource", "Código fuente")
          ∷ ("modeTable", "Tabla")
          ∷ ("modeFormatted", "Formateado")
          ∷ ("tableTruncated", "Archivo grande: la tabla de vista previa está recortada")
          ∷ [],
    )
    ∷ ("messages", ("uploaded", "{{name}} subido") ∷ ("deleted", "Archivo eliminado") ∷ [])
    ∷ (
      "errors",
      ("generic", "Error")
          ∷ ("loadBuckets", "No se pudieron cargar los buckets")
          ∷ ("loadObjects", "No se pudieron cargar los objetos")
          ∷ ("loadMore", "No se pudo cargar más")
          ∷ ("loadMeta", "No se pudieron cargar los metadatos")
          ∷ ("deleteFailed", "No se pudo eliminar")
          ∷ ("downloadFailed", "No se pudo descargar")
          ∷ ("uploadFailed", "No se pudo subir {{name}}")
          ∷ ("forbidden", "No tienes permiso para esta operación")
          ∷ [],
    )
    ∷ []
